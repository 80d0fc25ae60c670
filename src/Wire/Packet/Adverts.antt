-- ===== src/Wire/Packet/Adverts.antt =====
-- lanid.py, a whole response: the `rr_*` builders, `build_response` and `parse_packet` together.
use pipe_os.Prelude.{ℕ, ◌<◌, ◌≤◌, ◌≡◌, refl, List, [], ◌∷◌, map, length, All, arith}
use pipe_os.Wire.Result.{Result, ok, ◌>>=◌}
use pipe_os.Wire.Name.{Bytes, lower}
use pipe_os.Wire.Name.RoundTrip.{wire_name}
use pipe_os.Wire.Txt.{Pairs}
use pipe_os.Wire.Txt.RoundTrip.{FitsTxt, DistinctKeys, txt_kv-txt_rdata, txt_rdata-length}
use pipe_os.Wire.Packet.{
  Record, address, target, service, pairs, parse_packet, rr_a, rr_ptr, rr_srv, rr_txt,
  build_response,
}
use pipe_os.Wire.Packet.Records.{Name, labels, spell, IsWireName}
use pipe_os.Wire.Packet.Builders.{
  Builds, as_read, rr_a-Builds, rr_ptr-Builds, rr_srv-Builds, rr_txt-Builds,
}
use pipe_os.Wire.Packet.Response.{AllRead, nil, cons, parse_packet-build_response}

-- A record that a Machine announces, with its owner and its TTL.
pub data Advert : Type 0 where
  host : Name → ℕ → Bytes → Advert
  pointer_to : Name → ℕ → Name → Advert
  served_at : Name → ℕ → ℕ → Name → Advert
  facts : Name → ℕ → Pairs → Advert

-- The builder that is called for it.
abbrev pub build : Advert → Result Bytes
build (host n ttl ip) = rr_a (spell n) ip ttl
build (pointer_to n ttl to) = rr_ptr (spell n) (spell to) ttl
build (served_at n ttl port to) = rr_srv (spell n) port (spell to) ttl
build (facts n ttl kvs) = rr_txt (spell n) kvs ttl

-- What a reader is to find.
abbrev pub found : Advert → Record
found (host n ttl ip) = as_read n 1 ttl (address ip)
found (pointer_to n ttl to) = as_read n 12 ttl (target (map lower (spell to)))
found (served_at n ttl port to) = as_read n 33 ttl (service 0 0 port (map lower (spell to)))
found (facts n ttl kvs) = as_read n 16 ttl (pairs kvs)

-- A name of plain labels that takes at most 255 bytes.
abbrev pub DnsName : Name → Type 0
DnsName n = IsWireName n × (length (wire_name (labels n)) ≤ 255)

abbrev pub Ttl : ℕ → Type 0
Ttl ttl = ttl < 0x1_0000_0000

abbrev pub IsAdvert : Advert → Type 0
IsAdvert (host n ttl ip) = DnsName n × Ttl ttl × (length ip ≡ 4)
IsAdvert (pointer_to n ttl to) = DnsName n × Ttl ttl × DnsName to
IsAdvert (served_at n ttl port to) = DnsName n × Ttl ttl × DnsName to × (port < 0x10000)
IsAdvert (facts n ttl kvs) =
    DnsName n × Ttl ttl × All FitsTxt kvs × DistinctKeys kvs × (length kvs < 256)

build-Builds : (a : Advert) → IsAdvert a → Builds (build a) (found a)
build-Builds (host n ttl ip) h = rr_a-Builds n ttl h.0.0 h.1 ip h.2
build-Builds (pointer_to n ttl to) h =
    rr_ptr-Builds n ttl h.0.0 h.1 to h.2.0 (let short = h.2.1 in omega arith)
build-Builds (served_at n ttl port to) h =
    rr_srv-Builds n ttl h.0.0 h.1 port to h.3 h.2.0 (let short = h.2.1 in omega arith)
build-Builds (facts n ttl kvs) h =
    let (rdata, e, back) = txt_kv-txt_rdata kvs h.2 h.3 in
    rr_txt-Builds n ttl h.0.0 h.1 kvs rdata e back
      (let few = h.4 in omega (arith, txt_rdata-length kvs rdata h.2 e))

pub build_all : List Advert → Result (List Bytes)
build_all [] = ok []
build_all (a ∷ ads) = do out ← build a; outs ← build_all ads; ok (out ∷ outs)

-- The packet that announces the records.
unfoldable pub announce : List Advert → Result Bytes
unfolding build_all
announce ads = do outs ← build_all ads; build_response outs

build_all-AllRead :
    (ads : List Advert)
    → All IsAdvert ads
    → (outs : List Bytes) × (build_all ads ≡ ok outs)
      × AllRead outs (map found ads)
      × (length outs ≡ length ads)
unfolding build_all
build_all-AllRead [] h = ([], refl, nil, refl)
build_all-AllRead (a ∷ ads) h =
    let (out, e, reads) = build-Builds a h.0 in
    let (outs, es, rest, size) = build_all-AllRead ads h.1 in
    (out ∷ outs, rw e (rw es refl), cons reads rest, omega arith)

-- Up to 65535 records with names of plain labels of at most 255 bytes, addresses of four octets,
-- TTLs below 2^32, ports below 2^16 and up to 255 pairs that `_txt_kv` can tell apart are built into
-- a response without an error, and `parse_packet` reads it as a response without a question and
-- with exactly these records in their order, their names in lower case.
pub parse_packet-announce :
    (ads : List Advert)
    → All IsAdvert ads
    → length ads < 0x10000
    → (bytes : Bytes) × (announce ads ≡ ok bytes)
      × (parse_packet bytes ≡ record { flags = 0x8400; questions = []; records = map found ads })
unfolding announce
parse_packet-announce ads h few =
    let (outs, e, reads, size) = build_all-AllRead ads h in
    let (bytes, built, parsed) =
      parse_packet-build_response outs (map found ads) reads (omega arith) in
    (bytes, rw e built, parsed)
