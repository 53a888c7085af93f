-- ===== src/Lifecycle/Rules.antt =====
-- What the run of an action ends in, with one rule for each way to build an action.
use wudup.Prelude.{text_eq, ◌≡◌, refl, Bool, true, false, if◌then◌else◌}
use wudup.Lifecycle.Run.{
  Outcome, done, raised, Raised, StackRun, M, ◌>>=◌, after_outcome, ask, pure, get, modify, attempt,
}

-- What holds of an outcome and a state: `Q` of a value, and `E` where the program has raised.
abbrev pub Post :
    {A : Type 0} → (A → StackRun → Type 0) → (StackRun → Type 0) → Outcome A × StackRun → Type 0
Post Q E (done a, s) = Q a s
Post Q E (raised e, s) = E s

-- What the run of an action from one state ends in.
pub record Ends {A : Type 0} (m : M A) (s : StackRun) (Q : A → StackRun → Type 0)
    (E : StackRun → Type 0) : Type 0 where
  pub at : Post Q E (m s)

-- The rules: one for each way to build an action.
module _ {A : Type 0} {Q : A → StackRun → Type 0} {E : StackRun → Type 0} where
  pub Ends-pure : (a : A) {s : StackRun} → Q a s → Ends (pure a) s Q E
  unfolding pure
  Ends-pure a q = record { at = q }

  pub Ends-raised : (e : Raised) {s : StackRun} → E s → Ends (ask (raised e)) s Q E
  unfolding ask
  Ends-raised e p = record { at = p }

  -- A call of the environment changes nothing.
  pub Ends-ask : (o : Outcome A) {s : StackRun} → ((a : A) → Q a s) → E s → Ends (ask o) s Q E
  unfolding ask
  Ends-ask (done a) q p = record { at = q a }
  Ends-ask (raised e) q p = record { at = p }

  -- The same, where what has been answered matters.
  pub Ends-answered :
      (o : Outcome A) {s : StackRun} → ((a : A) → o ≡ done a → Q a s) → E s → Ends (ask o) s Q E
  unfolding ask
  Ends-answered (done a) q p = record { at = q a refl }
  Ends-answered (raised e) q p = record { at = p }

  pub Ends-if :
      (b : Bool) {m n : M A} {s : StackRun}
      → (b ≡ true → Ends m s Q E)
      → (b ≡ false → Ends n s Q E)
      → Ends (if b then m else n) s Q E
  Ends-if true p q = p refl
  Ends-if false p q = q refl

pub Ends-modified :
    {Q : Unit {0} → StackRun → Type 0} {E : StackRun → Type 0} (g : StackRun → StackRun)
    {s : StackRun}
    → Q tt (g s)
    → Ends (modify g) s Q E
unfolding modify
Ends-modified g q = record { at = q }

module _ {A B : Type 0} {Q : B → StackRun → Type 0} {E : StackRun → Type 0} where
  after_outcome-Post :
      (R : A → StackRun → Type 0) (F : StackRun → Type 0) (o : Outcome A × StackRun) (f : A → M B)
      → Post R F o
      → ((a : A) (t : StackRun) → R a t → Ends (f a) t Q E)
      → ((t : StackRun) → F t → E t)
      → Post Q E (after_outcome f o)
  after_outcome-Post R F (done a, t) f p h k = (h a t p).at
  after_outcome-Post R F (raised e, t) f p h k = k t p

  pub Ends-bind :
      (R : A → StackRun → Type 0) {m : M A} {f : A → M B} {s : StackRun}
      → Ends m s R E
      → ((a : A) (t : StackRun) → R a t → Ends (f a) t Q E)
      → Ends (m >>= f) s Q E
  unfolding ◌>>=◌
  Ends-bind R {m} {f} {s} p h = record { at = after_outcome-Post R E (m s) f p.at h (λ t x. x) }

  pub Ends-raised_bind :
      (e : Raised) (f : A → M B) {s : StackRun} → E s → Ends (ask (raised e) >>= f) s Q E
  unfolding ◌>>=◌ ask
  Ends-raised_bind e f p = record { at = p }

  pub Ends-done_bind :
      (a : A) (f : A → M B) {s : StackRun} → Ends (f a) s Q E → Ends (ask (done a) >>= f) s Q E
  unfolding ◌>>=◌ ask
  Ends-done_bind a f h = record { at = h.at }

  pub Ends-ask_bind :
      (o : Outcome A) {f : A → M B} {s : StackRun}
      → ((a : A) → Ends (f a) s Q E)
      → E s
      → Ends (ask o >>= f) s Q E
  unfolding ◌>>=◌ ask
  Ends-ask_bind (done a) h e = record { at = (h a).at }
  Ends-ask_bind (raised x) h e = record { at = e }

  pub Ends-pure_bind :
      (a : A) (f : A → M B) {s : StackRun} → Ends (f a) s Q E → Ends (pure a >>= f) s Q E
  unfolding ◌>>=◌ pure
  Ends-pure_bind a f h = record { at = h.at }

  pub Ends-if_bind :
      (b : Bool) (m n : M A) (f : A → M B) {s : StackRun}
      → (b ≡ true → Ends (m >>= f) s Q E)
      → (b ≡ false → Ends (n >>= f) s Q E)
      → Ends ((if b then m else n) >>= f) s Q E
  Ends-if_bind true m n f p q = p refl
  Ends-if_bind false m n f p q = q refl

  attempt_outcome-Post :
      (R : A → StackRun → Type 0) (F : StackRun → Type 0) (o : Outcome A × StackRun)
      (f : Outcome A → M B)
      → Post R F o
      → ((a : A) (t : StackRun) → R a t → Ends (f (done a)) t Q E)
      → ((e : Raised) (t : StackRun) → F t → Ends (f (raised e)) t Q E)
      → Post Q E (f o.0 o.1)
  attempt_outcome-Post R F (done a, t) f p h k = (h a t p).at
  attempt_outcome-Post R F (raised e, t) f p h k = (k e t p).at

  -- What has been raised is handled.
  pub Ends-attempt :
      (R : A → StackRun → Type 0) (F : StackRun → Type 0) {m : M A} (f : Outcome A → M B)
      {s : StackRun}
      → Ends m s R F
      → ((a : A) (t : StackRun) → R a t → Ends (f (done a)) t Q E)
      → ((e : Raised) (t : StackRun) → F t → Ends (f (raised e)) t Q E)
      → Ends (attempt m >>= f) s Q E
  unfolding ◌>>=◌ attempt
  Ends-attempt R F {m} f {s} p h k = record { at = attempt_outcome-Post R F (m s) f p.at h k }

module _ {B : Type 0} {Q : B → StackRun → Type 0} {E : StackRun → Type 0} where
  pub Ends-get : (f : StackRun → M B) {s : StackRun} → Ends (f s) s Q E → Ends (get >>= f) s Q E
  unfolding ◌>>=◌ get
  Ends-get f h = record { at = h.at }

  pub Ends-modify :
      (g : StackRun → StackRun) (f : Unit {0} → M B) {s : StackRun}
      → Ends (f tt) (g s) Q E
      → Ends (modify g >>= f) s Q E
  unfolding ◌>>=◌ modify
  Ends-modify g f h = record { at = h.at }

assoc-Post :
    {A B C : Type 0} (Q : C → StackRun → Type 0) (E : StackRun → Type 0) (o : Outcome A × StackRun)
    (k : A → M B) (f : B → M C)
    → Post Q E (after_outcome (λ a. k a >>= f) o)
    → Post Q E (after_outcome f (after_outcome k o))
unfolding ◌>>=◌
assoc-Post Q E (done a, t) k f p = p
assoc-Post Q E (raised e, t) k f p = p

module _ {A B C : Type 0} {Q : C → StackRun → Type 0} {E : StackRun → Type 0} where
  pub Ends-assoc :
      (m : M A) (k : A → M B) (f : B → M C) {s : StackRun}
      → Ends (m >>= λ a. k a >>= f) s Q E
      → Ends ((m >>= k) >>= f) s Q E
  unfolding ◌>>=◌
  Ends-assoc m k f {s} h = record { at = assoc-Post Q E (m s) k f h.at }

weaken-Post :
    {A : Type 0} (Q R : A → StackRun → Type 0) (E F : StackRun → Type 0) (o : Outcome A × StackRun)
    → Post Q E o
    → ((a : A) (t : StackRun) → Q a t → R a t)
    → ((t : StackRun) → E t → F t)
    → Post R F o
weaken-Post Q R E F (done a, t) p q e = q a t p
weaken-Post Q R E F (raised x, t) p q e = e t p

pub weaken-Ends :
    {A : Type 0} {Q R : A → StackRun → Type 0} {E F : StackRun → Type 0} {m : M A} {s : StackRun}
    → Ends m s Q E
    → ((a : A) (t : StackRun) → Q a t → R a t)
    → ((t : StackRun) → E t → F t)
    → Ends m s R F
weaken-Ends {m = m} {s = s} p q e = record { at = weaken-Post _ _ _ _ (m s) p.at q e }

-- The rules that need no intermediate claim.
pub ruleset ends_rules = (
  Ends-done_bind, Ends-raised_bind, Ends-raised, Ends-pure, Ends-get, Ends-modify, Ends-modified,
  Ends-assoc, Ends-pure_bind, Ends-if_bind, Ends-if, Ends-ask_bind, Ends-ask,
)
