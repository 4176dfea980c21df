-- ===== src/Examples/Scores.antt =====
-- The scores of groups of the five points.
use mqo_public.Prelude.{◌≡◌, refl, [], ◌∷◌, ok}
use mqo_public.Queue.Sorted.{list_queue}
use mqo_public.Examples.Queues.{group_queue}
use mqo_public.Lsh.Scores.{get_quality, get_variance}
use mqo_public.Examples.Numbers.{pos, negsuc, numbers}
use mqo_public.Examples.Groups.{points, counter}

quality_runs :
    get_quality numbers counter 0 (0 ∷ []) (1 ∷ 4 ∷ []) points 2 (pos 1) 2 ≡ ok (pos 8, 4)
unfolding get_quality
quality_runs = refl

abbrev two_groups : group_queue.Queue
two_groups =
    group_queue.push (record { group = 0 ∷ []; size = 1 })
      (group_queue.push (record { group = 1 ∷ 2 ∷ 3 ∷ []; size = 3 }) group_queue.empty)

-- The sum of the squares is 10 and the sum is 4; the division of these numbers is none.
variance_runs : get_variance numbers group_queue 3 two_groups ≡ ok (negsuc 5, group_queue.empty)
unfolding get_variance list_queue
variance_runs = refl
