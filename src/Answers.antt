-- ===== src/Answers.antt =====
-- data_handler/calculator.hpp and data_handler/answer_handler.hpp: the exact nearest points of each
-- query, and the binary file that keeps them. A file is its bytes; an `int` of it is its 32 bits.
pub mod Files
pub mod Order
pub mod Nearest
pub mod Distances
pub mod Correct
pub mod Saved
use mqo_public.Prelude.{
  ℕ, zero, suc, ◌+◌, ◌*◌, ◌%◌, ◌/◌, Bool, true, false, not, ◌&&◌, ◌||◌, Option, none, some, List,
  [], ◌∷◌, ◌++◌, length, Run, ok, index, expect, out_of_bounds, ◌>>=◌, ltb, ◌==◌, if◌then◌else◌,
}
use mqo_public.Floats.{Floats}
use mqo_public.Queue.{PriorityQueue}
use mqo_public.Distance.{int_of}
use mqo_public.DataFiles.{Format, get_data}

module _ (fl : Floats) where
  open fl use {Float, lt, one, add, sub, mul, root, zero as float_zero}

  -- The loop of `get_distance_data_query`, from `i` on.
  pub data_loop : List Float → List Float → ℕ → ℕ → ℕ → ℕ → Float → Run Float
  data_loop points query dstart qstart zero i sum = ok sum
  data_loop points query dstart qstart (suc k) i sum = do
    di ← int_of (dstart + i)
    a ← index points di
    qi ← int_of (qstart + i)
    b ← index query qi
    let diff = sub a b
    data_loop points query dstart qstart k (suc i) (add sum (mul diff diff))

  pub get_distance_data_query : List Float → List Float → ℕ → ℕ → ℕ → Run Float
  unfolding data_loop
  get_distance_data_query points query dim dindex qindex = do
    dstart ← int_of (dim * dindex)
    qstart ← int_of (dim * qindex)
    sum ← data_loop points query dstart qstart dim 0 float_zero
    ok (root sum)

  pub data_ip_loop : List Float → List Float → ℕ → ℕ → ℕ → ℕ → Float → Run Float
  data_ip_loop points query dstart qstart zero i sum = ok sum
  data_ip_loop points query dstart qstart (suc k) i sum = do
    di ← int_of (dstart + i)
    a ← index points di
    qi ← int_of (qstart + i)
    b ← index query qi
    data_ip_loop points query dstart qstart k (suc i) (add sum (mul a b))

  pub get_distance_data_query_ip : List Float → List Float → ℕ → ℕ → ℕ → Run Float
  unfolding data_ip_loop
  get_distance_data_query_ip points query dim dindex qindex = do
    dstart ← int_of (dim * dindex)
    qstart ← int_of (dim * qindex)
    sum ← data_ip_loop points query dstart qstart dim 0 float_zero
    ok (sub one sum)

  abbrev pub Near : Type 0
  Near = Float × ℕ

  -- `<` of `pair<float, int>`
  abbrev pub nearer : Near → Near → Bool
  nearer a b = lt a.0 b.0 || (not (lt b.0 a.0) && ltb a.1 b.1)

  module _ (pq : PriorityQueue Near nearer) where
    open pq use {Queue, empty, push, pop, items}

    -- `pq.push(…); if (pq.size() > topk) pq.pop();`
    pub keep : ℕ → Near → Queue → Run Queue
    keep topk a q =
        if ltb topk (length (items (push a q)))
        then expect (pop (push a q)) out_of_bounds >>= (λ top. ok top.1)
        else ok (push a q)

    -- `for (dataindex = 0; …)`, from `i` on with `k` rounds left.
    pub nearest : (ℕ → Run Float) → ℕ → ℕ → ℕ → Queue → Run Queue
    unfolding keep
    nearest dist topk zero i q = ok q
    nearest dist topk (suc k) i q = do
      d ← dist i
      q' ← keep topk (d, i) q
      nearest dist topk k (suc i) q'

    -- `for (pos = topk-1; pos >= 0; pos--)`: the farthest comes last.
    pub take_out : ℕ → Queue → List ℕ → Run (List ℕ)
    take_out zero q answer = ok answer
    take_out (suc pos) q answer = do
      ((d, i), q') ← expect (pop q) out_of_bounds
      take_out pos q' (i ∷ answer)

    pub answer_for_query : (ℕ → Run Float) → ℕ → ℕ → Run (List ℕ)
    unfolding nearest take_out
    answer_for_query dist n_data topk = do q ← nearest dist topk n_data 0 empty; take_out topk q []

    abbrev pub data_distance : Bool → List Float → List Float → ℕ → ℕ → ℕ → Run Float
    data_distance true points query dim i j = get_distance_data_query points query dim i j
    data_distance false points query dim i j = get_distance_data_query_ip points query dim i j

    -- The parallel loop over the queries, whose rounds write to places of their own.
    pub answer_queries : (ℕ → ℕ → Run Float) → ℕ → ℕ → ℕ → ℕ → Run (List (List ℕ))
    unfolding answer_for_query
    answer_queries dist n_data topk zero i = ok []
    answer_queries dist n_data topk (suc k) i = do
      answer ← answer_for_query (λ j. dist j i) n_data topk
      rest ← answer_queries dist n_data topk k (suc i)
      ok (answer ∷ rest)

    unfoldable pub calculate_answers :
        List Float → List Float → ℕ → ℕ → ℕ → ℕ → Bool → Run (List (List ℕ))
    unfolding answer_queries get_distance_data_query get_distance_data_query_ip
    calculate_answers points query dim n_query n_data topk l2 =
        answer_queries (data_distance l2 points query dim) n_data topk n_query 0

-- The `w` bytes of a number, the low ones first.
pub put : ℕ → ℕ → List ℕ
put zero x = []
put (suc w) x = x % 256 ∷ put w (x / 256)

pub get : ℕ → List ℕ → Option (ℕ × List ℕ)
get zero bytes = some (0, bytes)
get (suc w) [] = none
get (suc w) (b ∷ bytes) = elim (get w bytes) [
  | none ↦ none
  | some (x, rest) ↦ some (b + 256 * x, rest)
]

-- `outFile.write(innerVec.data(), innerSize * sizeof(int))`
pub put_ints : List ℕ → List ℕ
unfolding put
put_ints [] = []
put_ints (x ∷ xs) = put 4 x ++ put_ints xs

pub put_rows : List (List ℕ) → List ℕ
unfolding put put_ints
put_rows [] = []
put_rows (r ∷ rows) = put 8 (length r) ++ (put_ints r ++ put_rows rows)

unfoldable pub save_2d_vec_to_binary : List (List ℕ) → List ℕ
unfolding put put_rows
save_2d_vec_to_binary rows = put 8 (length rows) ++ put_rows rows

pub get_ints : ℕ → List ℕ → Option (List ℕ × List ℕ)
unfolding get
get_ints zero bytes = some ([], bytes)
get_ints (suc n) bytes = elim (get 4 bytes) [
  | none ↦ none
  | some (x, rest) ↦ elim (get_ints n rest) [
    | none ↦ none
    | some (xs, rest') ↦ some (x ∷ xs, rest')
  ]
]

-- The loop over the rows: the flag it returns, and the rows that `data` has then.
pub get_rows : ℕ → List ℕ → List (List ℕ) → Bool × List (List ℕ)
unfolding get get_ints
get_rows zero bytes rows = (true, rows)
get_rows (suc n) bytes rows = elim (get 8 bytes) [
  | none ↦ (false, rows)
  | some (size, rest) ↦ elim (get_ints size rest) [
    | none ↦ (false, rows)
    | some (xs, rest') ↦ get_rows n rest' (rows ++ xs ∷ [])
  ]
]

-- A file that cannot be opened leaves the vector as it was.
unfoldable pub load_2d_vec_from_binary : List (List ℕ) → Option (List ℕ) → Bool × List (List ℕ)
unfolding get get_rows
load_2d_vec_from_binary before none = (false, before)
load_2d_vec_from_binary before (some bytes) = elim (get 8 bytes) [
  | none ↦ (false, [])
  | some (size, rest) ↦ get_rows size rest []
]

-- `get_answers` ignores the flag, and its message reads `answers[0]`.
unfoldable pub get_answers : List (List ℕ) → Option (List ℕ) → Run (List (List ℕ))
unfolding load_2d_vec_from_binary
get_answers before file = do
  let answers = (load_2d_vec_from_binary before file).1
  first ← index answers 0
  ok answers

-- `save_answers`: the bytes of the file that is written. The dimension is that of the queries, which
-- are read last.
unfoldable pub save_answers :
    {U : Type 0} (fl : Floats)
    → PriorityQueue (Near fl) (nearer fl)
    → (U → fl.Float)
    → Format fl.Float U
    → Format fl.Float U
    → ℕ
    → Bool
    → Run (List ℕ)
unfolding calculate_answers save_2d_vec_to_binary get_data
save_answers fl pq to_float dpath qpath topk l2 = do
  (n_data, d, points) ← get_data to_float dpath
  (n_query, dim, query) ← get_data to_float qpath
  answers ← calculate_answers fl pq points query dim n_query n_data topk l2
  ok (save_2d_vec_to_binary answers)
