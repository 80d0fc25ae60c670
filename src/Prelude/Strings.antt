-- ===== src/Prelude/Strings.antt =====
-- Python's strings as lists of code points: literals, `split` by one character, `join`, `strip`.
use Prim.Native.Nat.{ℕ}
use Prim.Native.Char.{code}
use Prim.Native.String.{String}
use mathlib.Core.Path.{◌≡◌, refl, ap, ◌∙◌}
use mathlib.Core.Logic.{◌≢◌}
use mathlib.Core.Bool.{Bool, true, false, ◌&&◌}
use mathlib.Core.List.{List, [], ◌∷◌, ◌++◌, append-nil}
use native.Mathlib.Omega.{arith}
use pipe_os.Prelude.Tests.{◌==◌, if◌then◌else◌, ==-self}
use pipe_os.Prelude.Lists.{All}

abbrev pub Text : Type 0
Text = List ℕ

abbrev pub codes : String → Text
codes String.[] = []
codes (String.◌∷◌ c s) = code c ∷ codes s

abbrev pub text_eq : Text → Text → Bool
text_eq [] [] = true
text_eq [] (d ∷ t) = false
text_eq (c ∷ s) [] = false
text_eq (c ∷ s) (d ∷ t) = c == d && text_eq s t

pub text_eq_iff : (s t : Text) → (text_eq s t ≡ true → s ≡ t) × (s ≡ t → text_eq s t ≡ true)
text_eq_iff [] [] = (λ _. refl, λ _. refl)
text_eq_iff [] (d ∷ t) = (λ h. ground arith, λ h. ground arith)
text_eq_iff (c ∷ s) [] = (λ h. ground arith, λ h. ground arith)
text_eq_iff (c ∷ s) (d ∷ t) = let ih = text_eq_iff s t in (λ h. ground arith, λ h. ground arith)

pub text_eq_self : (s : Text) → text_eq s s ≡ true
text_eq_self s = (text_eq_iff s s).1 refl

abbrev pub is_empty {ℓ} : {A : Type ℓ} → List A → Bool
is_empty [] = true
is_empty (x ∷ xs) = false

-- One more character in front of what `split` returned.
abbrev pub split_step : Bool → ℕ → List Text → List Text
split_step cut c [] = []
split_step true c (w ∷ ws) = [] ∷ w ∷ ws
split_step false c (w ∷ ws) = (c ∷ w) ∷ ws

-- `s.split(sep)` for a separator of one character.
unfoldable pub split : ℕ → Text → List Text
split sep [] = [] ∷ []
split sep (c ∷ s) = split_step (c == sep) c (split sep s)

-- `chr(sep).join(words)`
unfoldable pub join : ℕ → List Text → Text
join sep [] = []
join sep (w ∷ []) = w
join sep (w ∷ v ∷ ws) = w ++ (sep ∷ join sep (v ∷ ws))

-- No character of the text is `sep`.
abbrev pub Lacks : ℕ → Text → Type 0
Lacks sep = All (λ c. (c == sep) ≡ false)

split_word :
    (sep : ℕ) (w s : Text) (v : Text) (vs : List Text)
    → Lacks sep w
    → split sep s ≡ v ∷ vs
    → split sep (w ++ s) ≡ (w ++ v) ∷ vs
unfolding split
split_word sep [] s v vs h e = e
split_word sep (c ∷ w) s v vs h e = ground (arith, split_word sep w s v vs h.1 e)

pub split_one : (sep : ℕ) (w : Text) → Lacks sep w → split sep w ≡ w ∷ []
unfolding split
split_one sep [] h = refl
split_one sep (c ∷ w) h = ground (arith, split_one sep w h.1)

split_sep :
    (sep : ℕ) (s : Text) (v : Text) (vs : List Text)
    → split sep s ≡ v ∷ vs
    → split sep (sep ∷ s) ≡ [] ∷ v ∷ vs
unfolding split
split_sep sep s v vs e = ground (arith, ==-self sep)

-- `split` takes apart what `join` put together.
pub split-join :
    (sep : ℕ) (w : Text) (ws : List Text)
    → All (Lacks sep) (w ∷ ws)
    → split sep (join sep (w ∷ ws)) ≡ w ∷ ws
unfolding join
split-join sep w [] h = split_one sep w h.0
split-join sep w (v ∷ ws) h =
    let deep = split_sep sep (join sep (v ∷ ws)) v ws (split-join sep v ws h.1) in
    split_word sep w (sep ∷ join sep (v ∷ ws)) [] (v ∷ ws) h.0 deep
    ∙ ap (λ x. x ∷ v ∷ ws) (append-nil w)

-- `s.lstrip(chr(c))`
unfoldable pub strip_left : ℕ → Text → Text
strip_left d [] = []
strip_left d (c ∷ s) = if c == d then strip_left d s else c ∷ s

unfoldable pub strip_right : ℕ → Text → Text
strip_right d [] = []
strip_right d (c ∷ s) =
    let rest = strip_right d s in if (c == d) && is_empty rest then [] else c ∷ rest

-- `s.strip(chr(c))`
unfoldable pub strip : ℕ → Text → Text
unfolding strip_left strip_right
strip d s = strip_right d (strip_left d s)

strip_left-join :
    (d : ℕ) (w : Text) (ws : List Text)
    → w ≢ []
    → Lacks d w
    → strip_left d (join d (w ∷ ws)) ≡ join d (w ∷ ws)
unfolding strip_left join
strip_left-join d [] ws ne h = absurd (ne refl)
strip_left-join d (c ∷ w) [] ne h = ground arith
strip_left-join d (c ∷ w) (v ∷ ws) ne h = ground arith

strip_right-word : (d : ℕ) (w : Text) → Lacks d w → strip_right d w ≡ w
unfolding strip_right
strip_right-word d [] h = refl
strip_right-word d (c ∷ w) h = ground (arith, strip_right-word d w h.1)

strip_right-append :
    (d : ℕ) (s t : Text) → t ≢ [] → strip_right d t ≡ t → strip_right d (s ++ t) ≡ s ++ t
unfolding strip_right
strip_right-append d [] t ne e = e
strip_right-append d (c ∷ s) [] ne e = absurd (ne refl)
strip_right-append d (c ∷ []) (x ∷ t) ne e = ground (arith, e)
strip_right-append d (c ∷ b ∷ s) (x ∷ t) ne e =
    ground (arith, strip_right-append d (b ∷ s) (x ∷ t) ne e)

-- Every word has a character, and none is `sep`.
abbrev pub Labels : ℕ → List Text → Type 0
Labels sep = All (λ w. (w ≢ []) × Lacks sep w)

pub join-ne-nil : (d : ℕ) (w : Text) (ws : List Text) → w ≢ [] → join d (w ∷ ws) ≢ []
unfolding join
join-ne-nil d [] ws ne e = ne refl
join-ne-nil d (c ∷ w) [] ne e = ne e
join-ne-nil d (c ∷ w) (v ∷ ws) ne e = cc

strip_right-join :
    (d : ℕ) (w : Text) (ws : List Text)
    → Labels d (w ∷ ws)
    → strip_right d (join d (w ∷ ws)) ≡ join d (w ∷ ws)
unfolding join
strip_right-join d w [] h = strip_right-word d w h.0.1
strip_right-join d w (v ∷ ws) h =
    let tail = join d (v ∷ ws) in
    let ne = join-ne-nil d v ws h.1.0.0 in
    let inner = strip_right-append d (d ∷ []) tail ne (strip_right-join d v ws h.1) in
    strip_right-append d w (d ∷ tail) (λ e. cc) inner

-- `strip` leaves joined labels alone.
pub strip-join :
    (d : ℕ) (w : Text) (ws : List Text)
    → Labels d (w ∷ ws)
    → strip d (join d (w ∷ ws)) ≡ join d (w ∷ ws)
unfolding strip
strip-join d w ws h = rw (strip_left-join d w ws h.0.0 h.0.1) (strip_right-join d w ws h)
