-- ===== src/Tests/Cluster.antt =====
-- cluster.py on two Machines.
use pipe_os.Prelude.{
  ℕ, ◌/◌, ◌≡◌, refl, Bool, false, true, [], ◌∷◌, Option, none, some, All, List, Text, codes, arith,
}
use pipe_os.Prelude.Fallible.{ok, err}
use pipe_os.Prelude.Dict.{get, del, has}
use pipe_os.Prelude.Ascii.{contains, lower, strip_space, starts_with, remove_suffix}
use pipe_os.Cluster.{
  not_in_cluster, Member, Doc, absent, doc, Files, Box, read, write, self_entry, member_id, named,
  norm, short_id,
}
use pipe_os.Cluster.Edits.{Seen, init, start, drop_member}
use pipe_os.Cluster.Saved.{Good}
use pipe_os.Cluster.Invariant.{inits, here, next, Edited-Good}
use pipe_os.Cluster.Membership.{Dropped, drop_member-Dropped}
use pipe_os.Cluster.Calls.{Send}
use pipe_os.Cluster.Rolling.{
  Row, clear, objection, objections, commit_of, needs_it, insert_id, waiting, turn, rolling_ok,
}
use pipe_os.Cluster.Rolling.Turns.{WellIfOther, rolling_ok-one, rolling_ok-IsWell}
use pipe_os.Cluster.Rolling.Lowest.{rolling_ok-goes}
use mathlib.Core.List.Memᴰ.{head}
use pipe_os.Cluster.Place.{
  Seat, Spec, Taken, uncapped, ungated, started, load, load_ltb, before, put, sort_seats, is_free,
  free, first_id, pick_idlest, same_list, lost_cap, lost_needs, warnings, finish, at_member,
  start_agent,
}
use pipe_os.Cluster.Place.Idlest.{Picks, pick_idlest-Picks}
use pipe_os.Cluster.Place.Warned.{Placed, start_agent-Placed}

-- Each certificate is its own fingerprint.
abbrev print : Text → Text
print pem = pem

abbrev every : Text → Bool
every pem = true

abbrev here_box : Box
here_box = record { self = codes "2f4a"; ca = codes "ca one" }

abbrev no_files : Files
no_files = record { stored = absent; bundle = none; status = none; identities = [] }

abbrev member : Text → Text → Member
member ca name = record { ca = ca; name = name; added = 7 }

abbrev two : Doc
two = record {
  id = codes "c0ffee";
  created = some 5;
  members =
      (codes "11aa", member (codes "ca two") (codes "attic"))
      ∷ (codes "2f4a", member (codes "ca one") (codes "cellar"))
      ∷ [];
}

abbrev two_files : Files
two_files = record { stored = doc two; bundle = none; status = none; identities = [] }

-- A new cluster, and the same with one more member.
abbrev first_doc : Doc
first_doc = record {
  id = codes "c0ffee";
  created = some 5;
  members = (codes "2f4a", member (codes "ca one") (codes "cellar")) ∷ [];
}

abbrev saved : Doc → Files → Files
saved = write print every print here_box

init_run :
    init print every print here_box (codes "cellar") false (codes "c0ffee") 7 no_files
    ≡ ok (
      record first_doc { created = some 7 },
      saved (record first_doc { created = some 7 }) no_files,
    )
unfolding init start read self_entry
init_run = refl

drop_run :
    drop_member print every print here_box (codes "Attic.local") two_files
    ≡ ok (
      record two { members = first_doc.members },
      saved (record two { members = first_doc.members }) two_files,
    )
unfolding drop_member read member_id named norm short_id lower strip_space remove_suffix has get del
    starts_with
drop_run = refl

Edited-Good_example :
    Good print every print here_box (saved (record first_doc { created = some 7 }) no_files)
Edited-Good_example =
    Edited-Good print every print here_box {w = no_files} tt
      (next here (inits (codes "cellar") false (codes "c0ffee") 7 _ init_run))

drop_member-Dropped_example :
    Dropped print every print here_box
      (codes "Attic.local")
      two_files
      (record two { members = first_doc.members })
      (saved (record two { members = first_doc.members }) two_files)
drop_member-Dropped_example =
    drop_member-Dropped print every print here_box (codes "Attic.local") two_files _ _ drop_run

-- The LAN shows the other member in a cluster of its own.
abbrev lan : Seen
lan = (codes "11aa", codes "beef") ∷ (codes "2f4a", codes "beef") ∷ []

-- Three Machines, of which the first two are to be updated.
abbrev row : Text → Text → Row
row id commit = record {
  id = id;
  name = [];
  updating = false;
  awake = true;
  verdict = codes "All fine";
  commit = commit;
}

abbrev rows : List Row
rows =
    row (codes "11aa") (codes "aaa")
    ∷ row (codes "2f4a") (codes "bbb")
    ∷ row (codes "33cc") (codes "ccc")
    ∷ []

abbrev release : Text
release = codes "cc"

waiting_run : waiting release [] rows ≡ codes "11aa" ∷ codes "2f4a" ∷ []
unfolding waiting needs_it insert_id starts_with
waiting_run = refl

all_well : All (WellIfOther (codes "11aa")) rows
unfolding contains lower strip_space
all_well = (
  (λ o. (refl, refl, refl, refl)),
  ((λ o. (refl, refl, refl, refl)), ((λ o. (refl, refl, refl, refl)), tt)),
)

cleared_run : rolling_ok rows (codes "11aa") release ≡ clear
unfolding rolling_ok objections objection contains lower strip_space commit_of waiting needs_it
    insert_id starts_with turn
cleared_run = refl

rolling_ok-one_example : codes "11aa" ≡ codes "11aa"
rolling_ok-one_example =
    rolling_ok-one rows (codes "11aa") (codes "11aa") release (ground arith) refl
      (ground (arith, waiting_run)) cleared_run cleared_run

rolling_ok-IsWell_example : All (WellIfOther (codes "11aa")) rows
rolling_ok-IsWell_example = rolling_ok-IsWell rows (codes "11aa") release (ground arith) cleared_run

rolling_ok-goes_example : rolling_ok rows (codes "11aa") release ≡ clear
unfolding commit_of needs_it starts_with
rolling_ok-goes_example =
    rolling_ok-goes rows (row (codes "11aa") (codes "aaa")) release refl (head refl) refl
      ((λ w. refl), ((λ w. refl), ((λ w. refl), tt))) all_well refl

abbrev seat : Text → Bool → Option ℕ → Seat
seat id busy load1 = record {
  id = id;
  awake = true;
  busy = busy;
  load1 = load1;
  ncpu = some 4;
  agents = [];
}

abbrev seats : List Seat
seats =
    seat (codes "11aa") false (some 80)
    ∷ seat (codes "2f4a") false (some 20)
    ∷ seat (codes "33cc") true (some 0)
    ∷ []

pick_run : pick_idlest (λ l n. l / n) seats ≡ some (codes "2f4a")
unfolding pick_idlest free is_free sort_seats put before load load_ltb first_id
pick_run = refl

pick_idlest-Picks_example : Picks (λ l n. l / n) seats (pick_idlest (λ l n. l / n) seats)
pick_idlest-Picks_example = pick_idlest-Picks (λ l n. l / n) seats

-- A member on an older release takes the agent and answers without the cap.
abbrev spec : Spec
spec = record { cap_usd = some 5; needs = codes "GH_TOKEN" ∷ [] }

abbrev old_answer : Taken
old_answer = record {
  error = [];
  cap_usd = none;
  needs = [];
  on = [];
  picked = false;
  warning = [];
}

abbrev answer : Taken
answer = record old_answer { on = codes "2f4a"; picked = true; warning = uncapped ∷ ungated ∷ [] }

start_run :
    start_agent
      (λ l n. l / n)
      (λ s. (400, old_answer))
      (λ mid s. ok (200, old_answer, some mid))
      []
      seats
      (codes "11aa")
      (codes "idlest")
      spec
    ≡ started answer
unfolding start_agent at_member finish warnings lost_cap lost_needs same_list pick_idlest free
    is_free sort_seats put before load load_ltb first_id
start_run = refl

start_agent-Placed_example :
    Placed
      (λ s. (400, old_answer))
      (λ mid s. ok (200, old_answer, some mid))
      (codes "11aa")
      spec
      (λ l n. l / n)
      []
      seats
      (codes "idlest")
      answer
start_agent-Placed_example =
    start_agent-Placed (λ s. (400, old_answer)) (λ mid s. ok (200, old_answer, some mid))
      (codes "11aa") spec (λ l n. l / n) [] seats (codes "idlest") answer start_run

-- The other member is off.
abbrev off : Send
off = λ mid d. err not_in_cluster
