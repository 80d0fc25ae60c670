-- ===== src/Cron/NextRun/Day.antt =====
-- The loops of `next_run` of cronspec.py over the hours and minutes of one day.
use pipe_os.Prelude.{
  ℕ, ◌<◌, ◌≤◌, ◌≡◌, inl, inr, sym, ap, ◌∙◌, true, List, [], ◌∷◌, none, some, Option-cases, leb,
  leb→le, ◌==◌, Bool-cases, ==_iff, arith, All,
}
use pipe_os.Prelude.Sets.{mem, Ascending, All-mem}
use pipe_os.Cron.Calendar.{Moment, stamp}
use pipe_os.Cron.NextRun.{at, first_minute, first_hour}

-- `m` is one of the minutes of this hour, and not before `start`.
record IsMinute (start : Moment) (day h : ℕ) (ms : List ℕ) (m : Moment) : Type 0 where
  minute : ℕ
  at_minute : m ≡ at day h minute
  listed : mem minute ms ≡ true
  late : stamp start ≤ stamp m

stamp-minute : (day h m n : ℕ) → m ≤ n → stamp (at day h m) ≤ stamp (at day h n)
unfolding stamp
stamp-minute day h m n le = omega arith

stamp-hour : (day h k m n : ℕ) → h < k → m < 60 → stamp (at day h m) < stamp (at day k n)
unfolding stamp
stamp-hour day h k m n lt few = omega arith

module _ (start : Moment) (day h : ℕ) where
  first_minute-IsMinute :
      (ms : List ℕ) (m : Moment) → first_minute start day h ms ≡ some m → IsMinute start day h ms m
  unfolding first_minute mem
  first_minute-IsMinute [] m e = absurd (ground arith)
  first_minute-IsMinute (x ∷ ms) m e = elim (Bool-cases (leb (stamp start) (stamp (at day h x)))) [
    | inl late ↦
        let same : at day h x ≡ m = ground arith in
        record {
          minute = x;
          at_minute = sym same;
          listed = ground arith;
          late = rw (← same) (leb→le _ _ late);
        }
    | inr early ↦
        let later = first_minute-IsMinute ms m (rw early at e) in
        record {
          minute = later.minute;
          at_minute = later.at_minute;
          listed = ground (arith, later.listed);
          late = later.late;
        }
  ]

  first_minute-first :
      (ms : List ℕ) (m : Moment) (x : ℕ)
      → Ascending ms
      → first_minute start day h ms ≡ some m
      → mem x ms ≡ true
      → stamp start ≤ stamp (at day h x)
      → stamp m ≤ stamp (at day h x)
  unfolding first_minute mem
  first_minute-first [] m x asc e l s = absurd (ground arith)
  first_minute-first (y ∷ ms) m x asc e l s =
      elim (Bool-cases (leb (stamp start) (stamp (at day h y)))) [
        | inl late ↦
            let here : at day h y ≡ m = ground arith in
            rw (← here) (
              stamp-minute day h y x (elim (Bool-cases (x == y)) [
                | inl same ↦ omega (arith, (==_iff x y).0 same)
                | inr other ↦
                    (let after = All-mem (λ z. y < z) ms x asc.0 (ground arith) in omega arith)
              ]))
        | inr early ↦ elim (Bool-cases (x == y)) [
          | inl same ↦ absurd (ground (arith, (==_iff x y).0 same))
          | inr other ↦ first_minute-first ms m x asc.1 (rw early at e) (ground arith) s
        ]
      ]

  first_minute-none :
      (ms : List ℕ) (x : ℕ)
      → first_minute start day h ms ≡ none
      → mem x ms ≡ true
      → stamp (at day h x) < stamp start
  unfolding first_minute mem
  first_minute-none [] x e l = absurd (ground arith)
  first_minute-none (y ∷ ms) x e l = elim (Bool-cases (x == y)) [
    | inl same ↦ ground (arith, (==_iff x y).0 same)
    | inr other ↦ ground (arith, first_minute-none ms x)
  ]

-- `m` is at one of the hours and minutes of this day, and not before `start`.
pub record IsTime (start : Moment) (day : ℕ) (hs ms : List ℕ) (m : Moment) : Type 0 where
  pub hour : ℕ
  pub minute : ℕ
  pub at_time : m ≡ at day hour minute
  pub hour_listed : mem hour hs ≡ true
  pub minute_listed : mem minute ms ≡ true
  pub late : stamp start ≤ stamp m

module _ (start : Moment) (day : ℕ) (ms : List ℕ) where
  pub first_hour-IsTime :
      (hs : List ℕ) (m : Moment) → first_hour start day hs ms ≡ some m → IsTime start day hs ms m
  unfolding first_hour mem
  first_hour-IsTime [] m e = absurd (ground arith)
  first_hour-IsTime (h ∷ hs) m e = elim (Option-cases (first_minute start day h ms)) [
    | inl nothing ↦
        let later = first_hour-IsTime hs m (rw (nothing, first_hour) at e) in
        record {
          hour = later.hour;
          minute = later.minute;
          at_time = later.at_time;
          hour_listed = ground (arith, later.hour_listed);
          minute_listed = later.minute_listed;
          late = later.late;
        }
    | inr (found, here) ↦
        let same : found ≡ m = ground arith in
        let f = first_minute-IsMinute start day h ms m (here ∙ ap some same) in
        record {
          hour = h;
          minute = f.minute;
          at_time = f.at_minute;
          hour_listed = ground arith;
          minute_listed = f.listed;
          late = f.late;
        }
  ]

  pub first_hour-none :
      (hs : List ℕ) (h x : ℕ)
      → first_hour start day hs ms ≡ none
      → mem h hs ≡ true
      → mem x ms ≡ true
      → stamp (at day h x) < stamp start
  unfolding first_hour mem
  first_hour-none [] h x e l k = absurd (ground arith)
  first_hour-none (g ∷ hs) h x e l k = elim (Option-cases (first_minute start day g ms)) [
    | inl nothing ↦ elim (Bool-cases (h == g)) [
      | inl same ↦ rw ((==_iff h g).0 same) (first_minute-none start day g ms x nothing k)
      | inr other ↦ first_hour-none hs h x (rw (nothing, first_hour) at e) (ground arith) k
    ]
    | inr (found, here) ↦ absurd (ground arith)
  ]

  pub first_hour-first :
      (hs : List ℕ) (m : Moment) (h x : ℕ)
      → Ascending hs
      → Ascending ms
      → All (λ y. y < 60) ms
      → first_hour start day hs ms ≡ some m
      → mem h hs ≡ true
      → mem x ms ≡ true
      → stamp start ≤ stamp (at day h x)
      → stamp m ≤ stamp (at day h x)
  unfolding first_hour mem
  first_hour-first [] m h x asc asc' few e l k s = absurd (ground arith)
  first_hour-first (g ∷ hs) m h x asc asc' few e l k s =
      elim (Option-cases (first_minute start day g ms)) [
        | inl nothing ↦ elim (Bool-cases (h == g)) [
          | inl same ↦
              let early = first_minute-none start day g ms x nothing k in
              absurd (
                let late : stamp start ≤ stamp (at day g x) = rw (← (==_iff h g).0 same) s in
                omega arith)
          | inr other ↦
              first_hour-first hs m h x asc.1 asc' few (rw (nothing, first_hour) at e)
                (ground arith) k s
        ]
        | inr (found, here) ↦
            let same_m : found ≡ m = ground arith in
            let f = first_minute-IsMinute start day g ms m (here ∙ ap some same_m) in
            elim (Bool-cases (h == g)) [
              | inl same ↦
                  let late : stamp start ≤ stamp (at day g x) = rw (← (==_iff h g).0 same) s in
                  rw ((==_iff h g).0 same)
                    (first_minute-first start day g ms m x asc' (here ∙ ap some same_m) k late)
              | inr other ↦
                  let after = All-mem (λ z. g < z) hs h asc.0 (ground arith) in
                  let small = All-mem (λ y. y < 60) ms f.minute few f.listed in
                  rw f.at_minute (let lt = stamp-hour day g h f.minute x after small in omega arith)
            ]
      ]
