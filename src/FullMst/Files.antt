-- ===== src/FullMst/Files.antt =====
-- What `save_mst` writes, `read_mst` reads.
use mqo_public.Prelude.{◌≡◌, refl, ◌∙◌, some, List, [], ◌∷◌, length, ok}
use mqo_public.Trajectory.{Edge}
use mqo_public.Text.{put_number, put_int, get_int}
use mqo_public.Text.RoundTrip.{get_int-put_number, get_int-put_int, get_int-space}
use mqo_public.FullMst.{save_edges, save_mst, vertex, read_edges, read_mst}

-- The lines after the end of a line.
read_edges-save_edges :
    (edges : List Edge) → read_edges (length edges) (10 ∷ save_edges edges) ≡ ok edges
unfolding read_edges save_edges vertex
read_edges-save_edges [] = refl
read_edges-save_edges ((v, p) ∷ edges) =
    let line = 10 ∷ save_edges edges in
    let child : get_int (10 ∷ put_number v (32 ∷ put_int p line))
        ≡ ok (some v, 32 ∷ put_int p line) =
      get_int-space 10 (put_number v (32 ∷ put_int p line)) refl
      ∙ get_int-put_number v 32 (put_int p line) refl in
    let parent : get_int (32 ∷ put_int p line) ≡ ok (p, line) =
      get_int-space 32 (put_int p line) refl ∙ get_int-put_int p 10 (save_edges edges) refl in
    rw (child, parent, read_edges-save_edges edges) refl

-- `read_mst` of the text that `save_mst` has written gives back the edges, the roots included: the
-- count and the vertices are written in decimal digits, -1 for no parent, with spaces and ends of lines
-- between them.
pub read_mst-save_mst : (edges : List Edge) → read_mst (some (save_mst edges)) ≡ ok edges
unfolding read_mst save_mst vertex
read_mst-save_mst edges =
    rw (get_int-put_number (length edges) 10 (save_edges edges) refl) (read_edges-save_edges edges)
