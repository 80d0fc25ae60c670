-- ===== src/Cron/Spec/Accepted.antt =====
-- What `parse` of cronspec.py lets through.
use mathlib.Core.Path.{subst}
use pipe_os.Prelude.{
  ℕ, ◌≡◌, ◌⊎◌, inl, inr, List, [], ◌∷◌, Option, none, some, arith, All, Text, split,
}
use pipe_os.Prelude.Fallible.{ok, ok-injective, bind-eq-ok}
use pipe_os.Prelude.Sets.{mem, mem-discard, All-mem, All_of_mem}
use pipe_os.Cron.Field.{field}
use pipe_os.Cron.Field.Bounds.{Within, field-Within}
use pipe_os.Cron.Spec.{
  Spec, manual_text, bare, fold_sunday, months, days, starts_with_star, parse_fields, parse,
  normalize, get_or, aliases,
}

-- Every set of the expression lies in the range of its field.
pub record InRange (spec : Spec) : Type 0 where
  pub minute : All (Within 0 59) spec.minute
  pub hour : All (Within 0 23) spec.hour
  pub day : All (Within 1 31) spec.day
  pub month : All (Within 1 12) spec.month
  pub weekday : All (Within 0 6) spec.weekday

fold_sunday-Within : (vals : List ℕ) → All (Within 0 7) vals → All (Within 0 6) (fold_sunday vals)
unfolding fold_sunday mem
fold_sunday-Within vals h =
    All_of_mem (Within 0 6) (fold_sunday vals)
      (λ x m. ground (arith, mem-discard 7 x vals, All-mem (Within 0 7) vals x h))

bare-InRange : (t : Text) → InRange (bare t)
bare-InRange t = record { minute = tt; hour = tt; day = tt; month = tt; weekday = tt }

parse_fields-InRange :
    (t : Text) (parts : List Text) (spec : Spec) → parse_fields t parts ≡ ok spec → InRange spec
unfolding parse_fields
parse_fields-InRange t (p0 ∷ p1 ∷ p2 ∷ p3 ∷ p4 ∷ []) spec e =
    let (minute, e0, k0) = bind-eq-ok (field p0 0 59 []) _ e in
    let (hour, e1, k1) = bind-eq-ok (field p1 0 23 []) _ k0 in
    let (day, e2, k2) = bind-eq-ok (field p2 1 31 []) _ k1 in
    let (month, e3, k3) = bind-eq-ok (field p3 1 12 months) _ k2 in
    let (weekday, e4, k4) = bind-eq-ok (field p4 0 7 days) _ k3 in
    let built : Spec = record {
      text = t;
      minute = minute;
      hour = hour;
      day = day;
      month = month;
      weekday = fold_sunday weekday;
      day_star = starts_with_star p2;
      weekday_star = starts_with_star p4;
    } in
    let same : built ≡ spec = ok-injective k4 in
    subst InRange same (record {
      minute = field-Within p0 0 59 [] minute e0;
      hour = field-Within p1 0 23 [] hour e1;
      day = field-Within p2 1 31 [] day e2;
      month = field-Within p3 1 12 months month e3;
      weekday = fold_sunday-Within weekday (field-Within p4 0 7 days weekday e4);
    })
parse_fields-InRange t _ spec e = absurd (ground arith)

-- An accepted text is `manual`, or its expression has five accepted fields.
parse-cases :
    (text : Text) (spec : Spec)
    → parse (some text) ≡ ok spec
    → (spec ≡ bare manual_text)
      ⊎ (parse_fields
            (get_or (normalize text) aliases)
            (split b' ' (get_or (normalize text) aliases))
          ≡ ok spec)
unfolding parse
parse-cases text spec e = ground arith

-- The values of an accepted expression lie in the ranges of its five fields, Sunday being 0.
pub parse-InRange : (text : Option Text) (spec : Spec) → parse text ≡ ok spec → InRange spec
parse-InRange none spec e = absurd (unfold parse in ground arith)
parse-InRange (some text) spec e =
    accepted (get_or (normalize text) aliases) (parse-cases text spec e)
  where
    accepted :
        (full : Text)
        → (spec ≡ bare manual_text) ⊎ (parse_fields full (split b' ' full) ≡ ok spec)
        → InRange spec
    accepted full (inl manual) = rw manual (bare-InRange manual_text)
    accepted full (inr timed) = parse_fields-InRange full (split b' ' full) spec timed
