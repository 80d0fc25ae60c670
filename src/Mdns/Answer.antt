-- ===== src/Mdns/Answer.antt =====
-- mdnsd.py, what a Machine says of itself: the end of `read_ident`, `our_names`, `our_records`,
-- `answer_for`, and `handle_packet` on a packet.
pub mod Silent
use pipe_os.Prelude.{
  ℕ, Bool, true, false, not, ◌&&◌, ◌||◌, Option, none, some, List, [], ◌∷◌, ◌++◌, leb, ◌==◌,
  if◌then◌else◌, take, Text, text_eq, is_empty, codes, bit_and,
}
use pipe_os.Prelude.Ascii.{text_in, sorted_texts}
use pipe_os.Wire.Result.{Result, ok, err, ◌>>=◌}
use pipe_os.Wire.Name.{Bytes}
use pipe_os.Wire.Txt.{Pairs}
use pipe_os.Wire.Packet.{
  Question, Record, Packet, parse_packet, rr_a, rr_ptr, rr_srv, rr_txt, build_response,
}
use pipe_os.Mdns.{Peer, service_type}

-- What is read of the Machine; the rest of the identity derives from it.
pub record Facts : Type 0 where
  pub id : Text
  pub hostname : Text
  pub name : Text
  pub lan_name : Text
  pub claimed : Bool
  pub verdict : Text
  pub commit : Text
  pub built : Text
  pub model : Text
  pub mac : Text
  pub cl : Text
  pub k : Text
  pub h : Text

abbrev pub ttl : ℕ
ttl = 120

abbrev pub dot_local : Text → Text
dot_local s = s ++ codes ".local"

-- `ident["nick"]`
unfoldable pub nick : Facts → Text
nick i =
    if not (is_empty i.name)
    then i.name
    else if text_eq i.hostname (codes "pipeos") || text_eq i.hostname i.lan_name
    then []
    else i.hostname

-- `ident["web_host"]`
unfoldable pub web_host : Facts → Text
unfolding nick
web_host i = dot_local (if is_empty (nick i) then i.lan_name else nick i)

-- `ident["instance"]`
abbrev pub instance_name : Facts → Text
instance_name i = i.id ++ (b'.' ∷ service_type)

-- `our_names`
unfoldable pub our_names : Facts → List Text
our_names i =
    let names = dot_local i.hostname ∷ codes "pipeos.local" ∷ dot_local i.lan_name ∷ [] in
    if is_empty i.name then names else dot_local i.name ∷ names

-- `_txt`
unfoldable pub txt : Facts → Pairs
unfolding nick
txt i =
    (codes "id", i.id)
    ∷ (codes "n", nick i)
    ∷ (codes "c", if i.claimed then codes "1" else codes "0")
    ∷ (codes "v", take 120 i.verdict)
    ∷ (codes "i", i.commit)
    ∷ (codes "b", i.built)
    ∷ (codes "m", i.model)
    ∷ (codes "mac", i.mac)
    ∷ (codes "cl", i.cl)
    ∷ (codes "k", i.k)
    ∷ (codes "h", i.h)
    ∷ []

abbrev pub enumeration : Text
enumeration = codes "_services._dns-sd._udp.local"

-- The records that are asked for are built one after the other.
unfoldable pub build_all : List (Result Bytes) → Result (List Bytes)
build_all [] = ok []
build_all (r ∷ rs) = do b ← r; bs ← build_all rs; ok (b ∷ bs)

addresses : List Text → Bytes → ℕ → List (Result Bytes)
addresses [] ip n = []
addresses (name ∷ names) ip n = rr_a name ip n ∷ addresses names ip n

-- `our_records`
unfoldable pub our_records : Facts → Bytes → ℕ → Result (List Bytes)
unfolding web_host our_names txt build_all addresses
our_records i ip n = build_all (
    rr_ptr enumeration service_type n
    ∷ rr_ptr service_type (instance_name i) n
    ∷ rr_srv (instance_name i) 80 (web_host i) n
    ∷ rr_txt (instance_name i) (txt i) n
    ∷ addresses (sorted_texts (our_names i)) ip n)

-- `announce`: the packet that is sent twice; `goodbye` is the one with a TTL of 0.
unfoldable pub announcement : Facts → Bytes → ℕ → Result Bytes
unfolding our_records
announcement i ip n = do rrs ← our_records i ip n; build_response rrs

abbrev pub is_any : ℕ → ℕ → Bool
is_any qtype t = qtype == t || qtype == 255

abbrev own_service : Facts → Bytes → List (Result Bytes)
own_service i ip =
    rr_srv (instance_name i) 80 (web_host i) ttl
    ∷ rr_txt (instance_name i) (txt i) ttl
    ∷ rr_a (web_host i) ip ttl
    ∷ []

-- What one question earns.
unfoldable pub earned : Facts → Bytes → Question → List (Result Bytes)
unfolding web_host our_names txt
earned i ip q =
    if text_eq q.name service_type && is_any q.qtype 12
    then rr_ptr service_type (instance_name i) ttl ∷ own_service i ip
    else if text_eq q.name enumeration && is_any q.qtype 12
    then rr_ptr enumeration service_type ttl ∷ []
    else if text_eq q.name (instance_name i) && (q.qtype == 16 || is_any q.qtype 33)
    then own_service i ip
    else if text_in q.name (our_names i) && is_any q.qtype 1
    then rr_a q.name ip ttl ∷ []
    else []

unfoldable pub earned_all : Facts → Bytes → List Question → List (Result Bytes)
unfolding earned
earned_all i ip [] = []
earned_all i ip (q ∷ qs) = earned i ip q ++ earned_all i ip qs

abbrev pub built : List Bytes → Result (Option Bytes)
built [] = ok none
built (r ∷ rrs) = do packet ← build_response (r ∷ rrs); ok (some packet)

-- `answer_for`
unfoldable pub answer_for : List Question → Facts → Bytes → Result (Option Bytes)
unfolding earned_all build_all
answer_for qs i ip = do rrs ← build_all (earned_all i ip qs); built rrs

any_qu : List Question → Bool
any_qu [] = false
any_qu (q ∷ qs) = q.qu || any_qu qs

-- What `handle_packet` does with a packet: the records are absorbed, nothing is done, or a packet is
-- sent, to the peer itself or to the group.
pub data Handled : Type 0 where
  absorbs : List Record → Handled
  nothing : Handled
  sends : (to_peer : Bool) → Bytes → Handled

unfoldable pub handle_packet : Bytes → Facts → Bytes → Result Handled
unfolding answer_for any_qu
handle_packet bytes i ip =
    let p = parse_packet bytes in
    if not (bit_and p.flags 0x8000 == 0)
    then ok (absorbs p.records)
    else if is_empty p.questions
    then ok nothing
    else (do
      answer ← answer_for p.questions i ip
      elim answer [ none ↦ ok nothing | some packet ↦ ok (sends (any_qu p.questions) packet) ])
