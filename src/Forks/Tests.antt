-- ===== src/Forks/Tests.antt =====
-- kadai3/fork.c: the theorem at a run of two children, the second of which is the first to end.
use excc.Common.{◌≤◌, ◌<◌, ◌≡◌, refl, [], ◌∷◌, arith, count_if}
use excc.Forks.{
  System, finished, reaped, child_line, parent_line, fork, all_forked, print, exit, wait,
  all_reaped, Reach, here, next,
}
use excc.Forks.Reports.{is_child_line, is_parent_line, reports_each}

abbrev done : System
done = record {
  main = finished;
  children = reaped ∷ reaped ∷ [];
  screen = child_line 1 ∷ child_line 0 ∷ parent_line 1 ∷ parent_line 0 ∷ [];
}

done-Reach : Reach 2 done
done-Reach =
    next
      (next
        (next
          (next
            (next
              (next
                (next
                  (next (next (next here (fork refl (omega arith))) (fork refl (omega arith)))
                    (print 1 (omega arith) refl))
                  (exit 1 (omega arith) refl))
                (print 0 (omega arith) refl))
              (exit 0 (omega arith) refl))
            (all_forked refl refl))
          (wait 1 refl (omega arith) (omega arith) refl))
        (wait 0 refl (omega arith) (omega arith) refl))
      (all_reaped refl refl)

reports_each_example :
    (count_if (is_parent_line 1) done.screen ≤ count_if (is_child_line 1) done.screen)
    × (count_if (is_child_line 1) done.screen ≤ 1)
    × (done.main ≡ finished → 1 < 2 → count_if (is_parent_line 1) done.screen ≡ 1)
reports_each_example = reports_each 2 done 1 done-Reach
