-- ===== src/Evidence/Order.antt =====
-- `ordered` and the events that it orders.
use actionwitness.Prelude.{Bool, ◌≡◌, any, any_congr, length, filter, List, Memᴰ, arith}
use actionwitness.Prelude.Sort.{
  IsOrder, IsSorted, mem-sort_by, mem_of_mem-sort_by, sort_by-IsSorted, length-filter-sort_by,
}
use actionwitness.Evidence.{RunEvent, ordered, sequence_leb}

pub sequence-IsOrder : IsOrder sequence_leb
sequence-IsOrder = record { total = λ e f. ground arith; transitive = λ e f g h k. ground arith }

pub mem-ordered : {e : RunEvent} (events : List RunEvent) → Memᴰ e events → Memᴰ e (ordered events)
unfolding ordered
mem-ordered events m = mem-sort_by sequence_leb events m

pub mem_of_mem-ordered :
    {e : RunEvent} (events : List RunEvent) → Memᴰ e (ordered events) → Memᴰ e events
unfolding ordered
mem_of_mem-ordered events m = mem_of_mem-sort_by sequence_leb events m

pub ordered-IsSorted : (events : List RunEvent) → IsSorted sequence_leb (ordered events)
unfolding ordered
ordered-IsSorted events = sort_by-IsSorted sequence-IsOrder events

-- Ordering the events changes no answer of `any`.
pub any-ordered :
    (p : RunEvent → Bool) (events : List RunEvent) → any p (ordered events) ≡ any p events
any-ordered p events =
    any_congr p (ordered events) events (λ e. mem_of_mem-ordered events) (λ e. mem-ordered events)

-- Nor how many events pass a test.
pub length-filter-ordered :
    (p : RunEvent → Bool) (events : List RunEvent)
    → length (filter p (ordered events)) ≡ length (filter p events)
unfolding ordered
length-filter-ordered p events = length-filter-sort_by sequence_leb p events
