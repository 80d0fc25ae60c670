-- ===== src/Mdns/Own.antt =====
-- A Machine never becomes its own peer in mdnsd.py.
use pipe_os.Prelude.{
  ℕ, ◌≡◌, refl, inl, inr, Option-cases, ◌==◌, ◌&&◌, none, some, List, [], ◌∷◌, if◌then◌else◌,
  Bool-cases, Text, text_eq, arith,
}
use pipe_os.Prelude.Dict.{get, get-set, get-del}
use pipe_os.Wire.Name.{Bytes}
use pipe_os.Wire.Packet.{Rdata, address, target, service, pairs, raw, Record}
use pipe_os.Mdns.{
  service_type, first_record, kv_of, host_of, ip_of, peer_id, peer_of, Peers, absorb_one,
  absorb_from, absorb_response,
}

module _ (self : Text) (src : Bytes) (now : ℕ) (records : List Record) where
  absorb_one-own :
      (ttl : ℕ) (inst : Text) (peers peers' : Peers)
      → absorb_one self src now records ttl inst peers ≡ some peers'
      → get self peers' ≡ get self peers
  unfolding absorb_one
  absorb_one-own ttl inst peers peers' e =
      let kv = kv_of (first_record 16 inst records) in
      let id = peer_id kv inst in
      elim (Bool-cases (text_eq id self)) [
        | inl same ↦ ground (arith, e)
        | inr other ↦ elim (Option-cases (host_of (first_record 33 inst records))) [
          | inl nothing ↦ ground (arith, e, get-del self id peers)
          | inr (hp, found) ↦ ground (
            arith,
            e,
            get-del self id peers,
            get-set self id (peer_of id kv hp.0 (ip_of hp.0 src records) hp.1 now) peers,
          )
        ]
      ]

  absorb_from-own :
      (rest : List Record) (peers : Peers)
      → get self (absorb_from self src now records rest peers) ≡ get self peers
  unfolding absorb_from
  absorb_from-own [] peers = refl
  absorb_from-own (r ∷ rest) peers = of_rdata r.rdata (λ known. absorb_from-own rest known)
    where
      of_rdata :
          (d : Rdata)
          → ((known : Peers)
              → get self (absorb_from self src now records rest known) ≡ get self known)
          → get self (elim d [
            | target inst ↦
                if r.rtype == 12 && text_eq r.name service_type
                then elim (absorb_one self src now records r.ttl inst peers) [
                  | none ↦ peers
                  | some peers' ↦ absorb_from self src now records rest peers'
                ]
                else absorb_from self src now records rest peers
            | pairs kv ↦ absorb_from self src now records rest peers
            | address b ↦ absorb_from self src now records rest peers
            | service p w port t ↦ absorb_from self src now records rest peers
            | raw b ↦ absorb_from self src now records rest peers
          ])
            ≡ get self peers
      of_rdata (pairs kv) ih = ih peers
      of_rdata (address b) ih = ih peers
      of_rdata (service p w port t) ih = ih peers
      of_rdata (raw b) ih = ih peers
      of_rdata (target inst) ih =
          elim (Option-cases (absorb_one self src now records r.ttl inst peers)) [
            | inl nothing ↦ ground (arith, ih peers)
            | inr (peers', e) ↦
                ground (arith, ih peers, absorb_one-own r.ttl inst peers peers' e, ih peers')
          ]

-- Whatever a packet says, `absorb_response` leaves the entry under the Machine's own id as it was:
-- its own answers, and another Machine's claim to be it, make no peer.
pub absorb_response-own :
    (self : Text) (src : Bytes) (now : ℕ) (records : List Record) (peers : Peers)
    → get self (absorb_response self src now records peers) ≡ get self peers
unfolding absorb_response
absorb_response-own self src now records peers = absorb_from-own self src now records records peers
