-- ===== src/Examples/Queues.antt =====
-- The queues of the program as lists.
use mqo_public.Prelude.{arith}
use mqo_public.Queue.{IsStrictWeak, PriorityQueue}
use mqo_public.Queue.Sorted.{list_queue}
use mqo_public.AnnMst.{PqItem, heavier}
use mqo_public.Lsh.{GroupInfo, smaller}
use mqo_public.Answers.{Near, nearer}
use mqo_public.Answers.Order.{nearer-IsStrictWeak}
use mqo_public.Examples.Numbers.{numbers, numbers-IsStrictWeak}

pub smaller-IsStrictWeak : IsStrictWeak smaller
smaller-IsStrictWeak = record {
  asym = λ a b h. ground (arith, h);
  neg_trans = λ a b c h k. ground (arith, h, k);
}

pub heavier-IsStrictWeak : IsStrictWeak (heavier numbers)
heavier-IsStrictWeak = record {
  asym = λ a b h. numbers-IsStrictWeak.asym b.weight a.weight h;
  neg_trans = λ a b c h k. numbers-IsStrictWeak.neg_trans c.weight b.weight a.weight k h;
}

abbrev pub group_queue : PriorityQueue GroupInfo smaller
group_queue = list_queue smaller smaller-IsStrictWeak

abbrev pub item_queue : PriorityQueue (PqItem numbers) (heavier numbers)
item_queue = list_queue (heavier numbers) heavier-IsStrictWeak

abbrev pub near_queue : PriorityQueue (Near numbers) (nearer numbers)
near_queue = list_queue (nearer numbers) (nearer-IsStrictWeak numbers numbers-IsStrictWeak)
