-- ===== src/Wire/Name/Total.antt =====
-- `read_name` of lanid.py ends on every packet, and stays inside it.
use pipe_os.Prelude.{
  ℕ, zero, suc, ◌+◌, ◌-◌, ◌*◌, ◌≤◌, ◌<◌, ◌≡◌, ◌≢◌, ◌⊎◌, inl, inr, refl, Option, none, some, length,
  get_elem?, lt_of_get_elem?, Text, Option-cases, arith,
}
use pipe_os.Wire.Result.{ok, err, out_of_fuel}
use pipe_os.Wire.Name.{
  Bytes, Cursor, Progress, done, more, read_round, read_loop, read_name, read_fuel, start,
}

-- A round moves on through the packet, or takes one of the 16 pointers.
abbrev Advances : Cursor → Progress → Type 0
Advances c (done r) = r ≢ err out_of_fuel
Advances c (more d) =
    ((d.hops ≡ c.hops) × (c.off < d.off)) ⊎ ((d.hops ≡ c.hops + 1) × (d.hops ≤ 16))

read_round-Advances :
    (bytes : Bytes) (c : Cursor) (o : Option ℕ) → Advances c (read_round bytes c o)
unfolding read_round
read_round-Advances bytes c none = ground arith
read_round-Advances bytes c (some n) = ground arith

-- An upper bound of the rounds left: the fuel that the pointers and the bytes ahead may use.
abbrev rounds : Bytes → Cursor → ℕ
rounds bytes c = (16 - c.hops) * suc (length bytes) + (length bytes - c.off)

rounds-Advances :
    (bytes : Bytes) (c d : Cursor)
    → c.hops ≤ 16
    → c.off < length bytes
    → Advances c (more d)
    → (rounds bytes d < rounds bytes c) × (d.hops ≤ 16)
rounds-Advances bytes c d h l (inl (same, on)) = (rw same (omega arith), rw same h)
rounds-Advances bytes c d h l (inr (hop, few)) =
    (let e : 16 - c.hops ≡ suc (16 - d.hops) = omega arith in rw e (omega arith), few)

read_round-inside :
    (bytes : Bytes) (c d : Cursor)
    → read_round bytes c (get_elem? bytes c.off) ≡ more d
    → c.off < length bytes
unfolding read_round
read_round-inside bytes c d e = elim (Option-cases (get_elem? bytes c.off)) [
  | inl out ↦ absurd (ground arith)
  | inr (n, at_off) ↦ lt_of_get_elem? bytes c.off at_off
]

read_loop-total :
    (fuel : ℕ) (bytes : Bytes) (c : Cursor)
    → c.hops ≤ 16
    → rounds bytes c < fuel
    → read_loop fuel bytes c ≢ err out_of_fuel
unfolding read_loop
read_loop-total zero bytes c h f = absurd (omega arith)
read_loop-total (suc fuel) bytes c h f =
    after (read_loop-total fuel bytes) (read_round bytes c (get_elem? bytes c.off)) refl
  where
    after :
        ((d : Cursor)
          → d.hops ≤ 16
          → rounds bytes d < fuel
          → read_loop fuel bytes d ≢ err out_of_fuel)
        → (p : Progress) → read_round bytes c (get_elem? bytes c.off) ≡ p
        → read_loop (suc fuel) bytes c ≢ err out_of_fuel
    after rec (done r) e =
        rw (e, read_loop) (rw e at (read_round-Advances bytes c (get_elem? bytes c.off)))
    after rec (more d) e =
        let step = rw e at (read_round-Advances bytes c (get_elem? bytes c.off)) in
        let left = rounds-Advances bytes c d h (read_round-inside bytes c d e) step in
        rw (e, read_loop) (rec d left.1 (omega arith))

-- `read_name` returns a name or raises: on no packet and at no offset does the loop go on after
-- the fuel of the model.
pub read_name-total : (bytes : Bytes) (off : ℕ) → read_name bytes off ≢ err out_of_fuel
unfolding read_name
read_name-total bytes off =
    read_loop-total (read_fuel bytes) bytes (start off) (omega arith) (omega arith)

-- Where the reader goes on after the name: behind its start, and inside the packet.
abbrev Resumes : ℕ → Bytes → Option ℕ → ℕ → Type 0
Resumes from bytes none off = from ≤ off
Resumes from bytes (some e) off = (from < e) × (e ≤ length bytes)

abbrev Lands : ℕ → Bytes → Progress → Type 0
Lands from bytes (done (ok (name, next))) = (from < next) × (next ≤ length bytes)
Lands from bytes (done (err e)) = Unit
Lands from bytes (more d) = Resumes from bytes d.resume d.off

read_round-Lands :
    (from : ℕ) (bytes : Bytes) (c : Cursor) (o : Option ℕ)
    → get_elem? bytes c.off ≡ o
    → Resumes from bytes c.resume c.off
    → Lands from bytes (read_round bytes c o)
unfolding read_round
read_round-Lands from bytes c none e h = tt
read_round-Lands from bytes c (some n) e h = elim (Option-cases (get_elem? bytes (c.off + 1))) [
  | inl out ↦ ground (arith, lt_of_get_elem? bytes c.off e)
  | inr (low, at_low) ↦
      ground (arith, lt_of_get_elem? bytes c.off e, lt_of_get_elem? bytes (c.off + 1) at_low)
]

read_loop-Lands :
    (from fuel : ℕ) (bytes : Bytes) (c : Cursor)
    → Resumes from bytes c.resume c.off
    → Lands from bytes (done (read_loop fuel bytes c))
unfolding read_loop
read_loop-Lands from zero bytes c h = tt
read_loop-Lands from (suc fuel) bytes c h =
    after (read_loop-Lands from fuel bytes) (read_round bytes c (get_elem? bytes c.off)) refl
  where
    after :
        ((d : Cursor)
          → Resumes from bytes d.resume d.off
          → Lands from bytes (done (read_loop fuel bytes d)))
        → (p : Progress) → read_round bytes c (get_elem? bytes c.off) ≡ p
        → Lands from bytes (done (read_loop (suc fuel) bytes c))
    after rec (done r) e =
        rw (e, read_loop) (rw e at (read_round-Lands from bytes c (get_elem? bytes c.off) refl h))
    after rec (more d) e =
        rw (e, read_loop)
          (rec d (rw e at (read_round-Lands from bytes c (get_elem? bytes c.off) refl h)))

-- A name that is read ends behind the place where it starts and not behind the packet's end,
-- wherever its pointers lead.
pub read_name-inside :
    (bytes : Bytes) (off next : ℕ) (name : Text)
    → read_name bytes off ≡ ok (name, next)
    → (off < next) × (next ≤ length bytes)
unfolding read_name
read_name-inside bytes off next name e =
    rw e at (read_loop-Lands off (read_fuel bytes) bytes (start off) (omega arith))
