-- ===== src/Timer/Count/Calls.antt =====
-- timer.c: the statistics in every state that the calls lead to, and after a reset that fails.
use clibrary.Base.{ℕ, ◌+◌, ◌*◌, ◌^◌, ◌%◌, ◌≡◌, false, some}
use clibrary.Timer.{Timer, sizeof_elem}
use clibrary.Timer.Edit.{reset}
use clibrary.Timer.Count.{
  elements, frame, IsCounted, Reach, created, added, deleted, checked, moved,
}
use clibrary.Timer.{timer_count, timer_memsize}
use clibrary.Timer.Count.Add.{created-IsCounted, added-IsCounted}
use clibrary.Timer.Count.Lose.{deleted-IsCounted, checked-IsCounted}
use clibrary.Timer.Count.Reset.{moved-IsCounted, refused_lem}

Reach-IsCounted : {t : Timer} → Reach t → IsCounted t
Reach-IsCounted (created wheel_size tm_type h) = created-IsCounted wheel_size tm_type h
Reach-IsCounted (added {t} current timeout callback event address r) =
    added-IsCounted t.body t.elem_cnt t.mem_ocupy current timeout callback event address
      (Reach-IsCounted r)
Reach-IsCounted (deleted {t} index callback para expire calls r h) =
    deleted-IsCounted t.body t.elem_cnt t.mem_ocupy index callback para expire calls
      (Reach-IsCounted r) h
Reach-IsCounted (checked {t} current most r) =
    checked-IsCounted t.body t.elem_cnt t.mem_ocupy current most (Reach-IsCounted r)
Reach-IsCounted (moved {t} index current timeout r h) =
    moved-IsCounted t.body t.elem_cnt t.mem_ocupy index current timeout (Reach-IsCounted r) h

-- In every state that `zx_timer_create`, `zx_timer_add`, `zx_timer_check`, `zx_timer_del` and a
-- `zx_timer_reset` that succeeds lead to, with handles of elements: `zx_timer_count` is the number of
-- elements in the queue, or in all spokes, and `zx_timer_memsize` the size of the timer, of its
-- spokes and of so many elements, both with the wrap-around of an `unsigned long`.
pub timer_count_lem :
    {t : Timer}
    → Reach t
    → (timer_count t ≡ elements t.body % 2 ^ 64)
      × (timer_memsize t ≡ (frame t.body + sizeof_elem * elements t.body) % 2 ^ 64)
unfolding timer_count timer_memsize
timer_count_lem r = let c = Reach-IsCounted r in (c.count, c.memory)

-- A `zx_timer_reset` of an element that returns -1 has taken one element away from the timer, which
-- `zx_timer_count` and `zx_timer_memsize` still count.
pub reset-refused :
    (t t' : Timer) (index current timeout : ℕ)
    → reset t index current timeout ≡ some (t', false)
    → (elements t'.body + 1 ≡ elements t.body)
      × (timer_count t' ≡ timer_count t)
      × (timer_memsize t' ≡ timer_memsize t)
unfolding timer_count timer_memsize
reset-refused t t' index current timeout h =
    refused_lem t.body t.elem_cnt t.mem_ocupy index current timeout h
