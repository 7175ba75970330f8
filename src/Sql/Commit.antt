-- ===== src/Sql/Commit.antt =====
-- A transaction over state held in memory, whose commit does not fail.
use mwanachama_backend_comm.Base.{refl, inl}
use mwanachama_backend_comm.Errors.{Result, ok, err}
use mwanachama_backend_comm.Exec.{Transaction}

module _ {S A : Type 0} where
  abbrev pub settle : S → Result A × S → Result A × S
  settle s (err e, s') = (err e, s)
  settle s (ok a, s') = (ok a, s')

  abbrev pub in_memory : Transaction S A
  in_memory = record {
    run = λ work s. settle s (work s);
    rolls_back = λ work s s' e h. rw h refl;
    commits = λ work s s' a h. inl (rw h refl);
  }
