-- ===== src/Vault/Names/Needs.antt =====
-- vault.py, what `parse_needs` accepts.
use pipe_os.Prelude.{
  ◌≡◌, refl, sym, ◌∙◌, true, ◌||◌, inl, inr, Bool-cases, Option, Option-cases, none, some, List, [],
  ◌∷◌, is_empty, Text, text_eq, text_eq_iff, codes, split, arith,
}
use pipe_os.Prelude.Ascii.{text_in, text_in-sorted_texts, lower, strip_space}
use pipe_os.Vault.Names.{
  Entry, text, other, Given, nothing, unlike, line, list, is_need, needs_of, sorted_set, commas,
  texts, parse_needs,
}

-- Each text of the list is a need.
abbrev AllNeeds : List Text → Type 0
AllNeeds xs = (x : Text) → text_in x xs ≡ true → is_need x ≡ true

AllNeeds-cons : (y : Text) (ys : List Text) → is_need y ≡ true → AllNeeds ys → AllNeeds (y ∷ ys)
unfolding text_in
AllNeeds-cons y ys h hs x i = elim (Bool-cases (text_eq y x)) [
  | inl same ↦ rw (← (text_eq_iff y x).0 same) h
  | inr differ ↦ hs x (ground (arith, i, differ))
]

some-injective : {a b : List Text} → ◌≡◌ {A = Option (List Text)} (some a) (some b) → a ≡ b
some-injective h = cc

needs_of-AllNeeds : (es : List Entry) (xs : List Text) → needs_of es ≡ some xs → AllNeeds xs
unfolding needs_of text_in
needs_of-AllNeeds [] xs e = rw (← some-injective e) (λ x i. absurd (ground (arith, i)))
needs_of-AllNeeds (other ∷ es) xs e = absurd (ground (arith, e))
needs_of-AllNeeds (text s ∷ es) xs e =
    let x = lower (strip_space s) in
    elim (Bool-cases (is_empty x || text_eq x (codes "none"))) [
      | inl blank ↦ needs_of-AllNeeds es xs (rw (blank, needs_of) at e)
      | inr named ↦ elim (Bool-cases (is_need x)) [
        | inr bad ↦ absurd (ground (arith, e, named, bad))
        | inl good ↦ elim (Option-cases (needs_of es)) [
          | inl nothing' ↦ absurd (ground (arith, e, named, good, nothing'))
          | inr (ys, rest) ↦
              rw (← some-injective (rw rest at (rw good at (rw (named, needs_of) at e))))
                (AllNeeds-cons x ys good (needs_of-AllNeeds es ys rest))
        ]
      ]
    ]

sorted_set-AllNeeds :
    (o : Option (List Text)) (xs : List Text)
    → ((ys : List Text) → o ≡ some ys → AllNeeds ys)
    → sorted_set o ≡ some xs
    → AllNeeds xs
unfolding sorted_set
sorted_set-AllNeeds none xs h e = absurd (ground (arith, e))
sorted_set-AllNeeds (some ys) xs h e =
    rw (← some-injective e) (λ x i. h ys refl x (sym (text_in-sorted_texts x ys) ∙ i))

-- Each name that `parse_needs` returns begins with `jobs.`, has more behind it, is a name that the
-- vault accepts, and may be shared.
pub parse_needs-AllNeeds : (g : Given) (xs : List Text) → parse_needs g ≡ some xs → AllNeeds xs
unfolding parse_needs text_in
parse_needs-AllNeeds nothing xs e = rw (← some-injective e) (λ x i. absurd (ground (arith, i)))
parse_needs-AllNeeds unlike xs e = absurd (ground (arith, e))
parse_needs-AllNeeds (line s) xs e =
    sorted_set-AllNeeds (needs_of (texts (split b',' (commas s)))) xs
      (needs_of-AllNeeds (texts (split b',' (commas s)))) e
parse_needs-AllNeeds (list es) xs e = sorted_set-AllNeeds (needs_of es) xs (needs_of-AllNeeds es) e
