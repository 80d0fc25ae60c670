-- ===== src/Webd/Ending.antt =====
-- webd.py: how a handler ends, by the box that it leaves where it refuses and where it answers.
use pipe_os.Prelude.Fallible.{Fallible, ok, err}
use pipe_os.Webd.{Box, Refusal, Handler, run_on}

-- `R` of the box after a refusal, and `Q` of the result and the box else.
abbrev pub Ends :
    {A : Type 0} → (Box → Type 0) → (A → Box → Type 0) → Fallible Refusal A × Box → Type 0
Ends R Q (ok a, b) = Q a b
Ends R Q (err e, b) = R b

-- A handler goes on from where another ended.
pub run_on-Ends :
    {A B : Type 0} (R : Box → Type 0) (Q : A → Box → Type 0) (S : B → Box → Type 0)
    (x : Fallible Refusal A × Box) (f : A → Handler B)
    → Ends R Q x
    → ((a : A) (b : Box) → Q a b → Ends R S (f a b))
    → Ends R S (run_on x f)
run_on-Ends R Q S (ok a, b) f h k = k a b h
run_on-Ends R Q S (err e, b) f h k = h

pub weaken-Ends :
    {A : Type 0} (R R' : Box → Type 0) (Q Q' : A → Box → Type 0) (x : Fallible Refusal A × Box)
    → ((b : Box) → R b → R' b)
    → ((a : A) (b : Box) → Q a b → Q' a b)
    → Ends R Q x
    → Ends R' Q' x
weaken-Ends R R' Q Q' (ok a, b) r q h = q a b h
weaken-Ends R R' Q Q' (err e, b) r q h = r b h

-- What holds of the box either way.
pub Ends-box :
    {A : Type 0} (R : Box → Type 0) (x : Fallible Refusal A × Box) → Ends R (λ a b. R b) x → R x.1
Ends-box R (ok a, b) h = h
Ends-box R (err e, b) h = h

-- What a handler ends with in any case, when it answers.
pub run_on-answer :
    {A B : Type 0} (S : B → Box → Type 0) (x : Fallible Refusal A × Box) (f : A → Handler B)
    → ((a : A) (b : Box) → Ends (λ c. Unit {0}) S (f a b))
    → Ends (λ c. Unit {0}) S (run_on x f)
run_on-answer S (ok a, b) f k = k a b
run_on-answer S (err e, b) f k = tt
