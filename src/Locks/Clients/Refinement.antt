-- ===== src/Locks/Clients/Refinement.antt =====
-- The file is what whole rewrites in some order make of it.
use wudup.Prelude.{
  ℕ, Text, ◌≡◌, refl, ap, ◌∙◌, Bool, true, false, List, [], ◌∷◌, nat_eq, if◌then◌else◌, Bool-cases,
  inl, inr,
}
use wudup.WudFile.Rewrite.{rewrite_wud_file}
use wudup.Locks.Clients.{
  Place, outside, holding, leaving, has_read, World, step_from, client_step, run_clients,
  initial_world, rewrites, writers, rewrite_all,
}
use wudup.Locks.Clients.Safety.{IsLocked, initial_world-IsLocked, client_step-IsLocked}

module _ (transform : ℕ → List Text → List Text) where
  -- A step rewrites the text that stands in the file, or leaves the file.
  step_from-file :
      (w : World) (i : ℕ) (ok : Bool) (p : Place)
      → w.place i ≡ p
      → IsLocked w
      → (step_from transform w i ok p).file
        ≡ (if rewrites transform p ok then rewrite_wud_file (transform i) w.file else w.file)
  unfolding step_from rewrites
  step_from-file w i false outside e l = refl
  step_from-file w i true outside e l = elim (Bool-cases w.directory) [
    | inl t ↦ rw t refl
    | inr f ↦ rw f refl
  ]
  step_from-file w i ok holding e l = refl
  step_from-file w i true (has_read text) e l =
      ap (rewrite_wud_file (transform i)) (l.current i text e)
  step_from-file w i false (has_read text) e l = refl
  step_from-file w i ok leaving e l = refl

  rewrite_all-if :
      (b : Bool) (i : ℕ) (clients : List ℕ) (text after : Text)
      → after ≡ (if b then rewrite_wud_file (transform i) text else text)
      → rewrite_all transform clients after
        ≡ rewrite_all transform (if b then i ∷ clients else clients) text
  unfolding rewrite_all
  rewrite_all-if true i clients text after e = ap (rewrite_all transform clients) e
  rewrite_all-if false i clients text after e = ap (rewrite_all transform clients) e

  run-file :
      (w : World) (events : List (ℕ × Bool))
      → IsLocked w
      → (run_clients transform w events).file
        ≡ rewrite_all transform (writers transform w events) w.file
  unfolding run_clients writers rewrite_all client_step
  run-file w [] l = refl
  run-file w ((i, ok) ∷ events) l =
      run-file (client_step transform w i ok) events (client_step-IsLocked transform w i ok l)
      ∙ rewrite_all-if (rewrites transform (w.place i) ok) i
          (writers transform (client_step transform w i ok) events) w.file _
          (step_from-file w i ok (w.place i) refl l)

  -- However the system calls of the clients follow each other and whichever of them fail, the file is
  -- what the rewrites of the clients that replaced it make of the first text, one whole rewrite behind
  -- the other.
  pub run_clients-refines :
      (file : Text) (events : List (ℕ × Bool))
      → (run_clients transform (initial_world file) events).file
        ≡ rewrite_all transform (writers transform (initial_world file) events) file
  unfolding initial_world
  run_clients-refines file events =
      run-file (initial_world file) events (initial_world-IsLocked file)
