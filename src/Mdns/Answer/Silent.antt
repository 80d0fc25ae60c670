-- ===== src/Mdns/Answer/Silent.antt =====
-- `answer_for` of mdnsd.py: which questions are answered.
use pipe_os.Prelude.{
  inl, inr, Bool-cases, ◌≡◌, refl, sym, ap, ◌∙◌, Bool, true, false, not, ◌&&◌, ◌||◌, Option, none,
  some, List, [], ◌∷◌, ◌++◌, ◌==◌, Text, text_eq, is_empty, codes, arith,
}
use pipe_os.Prelude.Ascii.{text_in}
use pipe_os.Wire.Result.{Result, ok, err, ◌>>=◌}
use pipe_os.Wire.Name.{Bytes}
use pipe_os.Wire.Packet.{Question, build_response}
use pipe_os.Mdns.{service_type}
use pipe_os.Mdns.Answer.{
  Facts, instance_name, our_names, enumeration, is_any, build_all, earned, earned_all, built,
  answer_for,
}

-- A name of the Machine: its hostname, the lobby, the permanent name on the LAN, which a Machine that
-- has been claimed and named keeps, and the name that it was given.
unfoldable pub is_own_name : Facts → Text → Bool
is_own_name i n =
    text_eq (i.hostname ++ codes ".local") n
    || text_eq (codes "pipeos.local") n
    || text_eq (i.lan_name ++ codes ".local") n
    || (not (is_empty i.name) && text_eq (i.name ++ codes ".local") n)

own_name_lem : (i : Facts) (n : Text) → text_in n (our_names i) ≡ is_own_name i n
unfolding our_names text_in is_own_name
own_name_lem i n = elim (Bool-cases (is_empty i.name)) [
  | inl unnamed ↦ rw unnamed (ground arith)
  | inr named ↦ rw named (ground arith)
]

-- A question that is about this Machine: the service or its kinds, its instance, or one of its names.
unfoldable pub is_ours : Facts → Question → Bool
is_ours i q =
    (text_eq q.name service_type && is_any q.qtype 12)
    || (text_eq q.name enumeration && is_any q.qtype 12)
    || (text_eq q.name (instance_name i) && (q.qtype == 16 || is_any q.qtype 33))
    || (is_own_name i q.name && is_any q.qtype 1)

is_empty-earned :
    (i : Facts) (ip : Bytes) (q : Question) → is_empty (earned i ip q) ≡ not (is_ours i q)
unfolding earned is_ours
is_empty-earned i ip q = ground (arith, own_name_lem i q.name)

is_empty-append : {A : Type 0} (xs ys : List A) → is_empty (xs ++ ys) ≡ (is_empty xs && is_empty ys)
is_empty-append [] ys = refl
is_empty-append (x ∷ xs) ys = refl

-- Some question is about this Machine.
abbrev pub any_ours : Facts → List Question → Bool
any_ours i [] = false
any_ours i (q ∷ qs) = is_ours i q || any_ours i qs

is_empty-earned_all :
    (i : Facts) (ip : Bytes) (qs : List Question)
    → is_empty (earned_all i ip qs) ≡ not (any_ours i qs)
unfolding earned_all
is_empty-earned_all i ip [] = refl
is_empty-earned_all i ip (q ∷ qs) = ground (
  arith,
  is_empty-append (earned i ip q) (earned_all i ip qs),
  is_empty-earned i ip q,
  is_empty-earned_all i ip qs,
)

ok-injective : {A : Type 0} {a b : A} → ◌≡◌ {A = Result A} (ok a) (ok b) → a ≡ b
ok-injective h = cc

-- What the first step of a result that is no error gave.
step_of :
    {X Y : Type 0} (first : Result X) (then_do : X → Result Y) {y : Y}
    → (first >>= then_do) ≡ ok y
    → (x : X) × (then_do x ≡ ok y) × (first ≡ ok x)
step_of (err why) then_do q = absurd (ground (arith, q))
step_of (ok x) then_do q = (x, q, refl)

is_empty-build_all :
    (rs : List (Result Bytes)) (bs : List Bytes) → build_all rs ≡ ok bs → is_empty bs ≡ is_empty rs
unfolding build_all
is_empty-build_all [] bs e = ap is_empty (sym (ok-injective e))
is_empty-build_all (r ∷ rs) bs e =
    let (b, e2, e1) = step_of r _ e in
    let (bs', e4, e3) = step_of (build_all rs) _ e2 in ap is_empty (sym (ok-injective e4))

abbrev pub is_some : Option Bytes → Bool
is_some none = false
is_some (some b) = true

-- An answer that is built without an error is one just where some question is about the Machine: the
-- service, the list of services, its instance, or its hostname, pipeos.local, its permanent name on the
-- LAN or its given name, with a type that is answered.
pub answer_for-any_ours :
    (qs : List Question) (i : Facts) (ip : Bytes) (answer : Option Bytes)
    → answer_for qs i ip ≡ ok answer
    → is_some answer ≡ any_ours i qs
unfolding answer_for
answer_for-any_ours qs i ip answer e =
    let (bs, e2, e1) = step_of (build_all (earned_all i ip qs)) built e in
    by_records bs answer e2
    ∙ (ap not (is_empty-build_all (earned_all i ip qs) bs e1)
        ∙ (ap not (is_empty-earned_all i ip qs) ∙ not_not (any_ours i qs)))
  where
    not_not : (b : Bool) → not (not b) ≡ b
    not_not true = refl
    not_not false = refl

    by_records :
        (bs : List Bytes) (a : Option Bytes) → built bs ≡ ok a → is_some a ≡ not (is_empty bs)
    by_records [] a h = ap is_some (sym (ok-injective h))
    by_records (b ∷ bs) a h =
        let (packet, h2, h1) = step_of (build_response (b ∷ bs)) _ h in
        ap is_some (sym (ok-injective h2))
