-- ===== src/Tests/Mdns.antt =====
-- mdnsd.py's peers and roster on concrete sightings.
use pipe_os.Prelude.{◌≡◌, ◌++◌, refl, true, false, [], ◌∷◌, List, some, codes, split, strip, Text}
use pipe_os.Wire.Name.{Bytes}
use pipe_os.Wire.Packet.{Record, target, service, address, pairs, raw}
use pipe_os.Prelude.Dict.{get}
use pipe_os.Mdns.{Peer, Peers, named, get_or_blank, service_type, absorb_response}
use pipe_os.Wire.Result.{ok}
use pipe_os.Wire.Name.{encode_name, encode_labels}
use pipe_os.Wire.Struct.{pack_3h, pack_2hih}
use pipe_os.Wire.Packet.{Question, rr, rr_a, build_response, concat}
use pipe_os.Prelude.Ascii.{text_in}
use pipe_os.Mdns.Answer.{Facts, our_names, build_all, earned, earned_all, answer_for}
use pipe_os.Mdns.Answer.Silent.{is_some, any_ours, answer_for-any_ours}
use pipe_os.Mdns.Own.{absorb_response-own}
use pipe_os.Mdns.Roster.{Rows}

abbrev studio : Text
studio = codes "ab12._pipeos._tcp.local"

-- A Machine's answer with an A record of five bytes.
abbrev answer : List Record
answer =
    record { name = service_type; rtype = 12; ttl = 120; rdata = target studio }
    ∷ record { name = studio; rtype = 33; ttl = 120; rdata = service 0 0 80 (codes "studio.local") }
    ∷ record {
      name = studio;
      rtype = 16;
      ttl = 120;
      rdata = pairs ((codes "n", codes "studio") ∷ []);
    }
    ∷ record {
      name = codes "studio.local";
      rtype = 1;
      ttl = 120;
      rdata = raw (1 ∷ 2 ∷ 3 ∷ 4 ∷ 5 ∷ []);
    }
    ∷ []

abbrev sender : Bytes
sender = 10 ∷ 0 ∷ 0 ∷ 7 ∷ []

abbrev studio_peer : Peer
studio_peer = record {
  id = codes "ab12";
  name = codes "studio";
  host = named (codes "studio.local");
  ip = raw (1 ∷ 2 ∷ 3 ∷ 4 ∷ 5 ∷ []);
  claimed = false;
  verdict = [];
  commit = [];
  built = [];
  model = [];
  mac = [];
  cl = [];
  k = [];
  h = [];
  port = 80;
  last_seen = 1000;
}

-- The raw bytes of the record are the address of the peer, which `json` cannot write.
raw_address :
    absorb_response (codes "ffff") sender 1000 answer [] ≡ (codes "ab12", studio_peer) ∷ []
unfolding absorb_response split get_or_blank
raw_address = refl

absorb_response-own_example :
    get (codes "ab12") (absorb_response (codes "ab12") sender 1000 answer [])
    ≡ get (codes "ab12") []
absorb_response-own_example = absorb_response-own (codes "ab12") sender 1000 answer []

abbrev peers : Peers
peers = (codes "ab12", record studio_peer { ip = address sender }) ∷ []

-- The same with an address of four bytes.
abbrev sighted : Peer
sighted = record studio_peer { ip = address sender }

abbrev rows : Rows
rows =
    (
      codes "ab12",
      record {
        id = codes "ab12";
        name = codes "attic";
        host = named (codes "attic.local");
        ip = address sender;
        claimed = true;
        mac = codes "02:00:00:00:ab:12";
        model = [];
        last_seen = 900;
      },
    )
    ∷ []

-- This Machine is asked for pipeos.local.
abbrev here : Facts
here = record {
  id = codes "2f4a";
  hostname = codes "pipeos";
  name = [];
  lan_name = codes "pipeos-2f4a";
  claimed = true;
  verdict = [];
  commit = [];
  built = [];
  model = [];
  mac = [];
  cl = [];
  k = [];
  h = [];
}

abbrev asked : List Question
asked = record { name = codes "pipeos.local"; qtype = 1; qu = false } ∷ []

abbrev reply : Bytes
reply =
    0
    ∷ 0
    ∷ 132
    ∷ 0
    ∷ 0
    ∷ 0
    ∷ 0
    ∷ 1
    ∷ 0
    ∷ 0
    ∷ 0
    ∷ 0
    ∷ 6
    ∷ (codes "pipeos"
        ++ (5
            ∷ (codes "local"
                ++ (0 ∷ 0 ∷ 1 ∷ 128 ∷ 1 ∷ 0 ∷ 0 ∷ 0 ∷ 120 ∷ 0 ∷ 4 ∷ 10 ∷ 0 ∷ 0 ∷ 7 ∷ []))))

reply_run : answer_for asked here sender ≡ ok (some reply)
unfolding answer_for earned_all earned build_all our_names text_in rr_a rr encode_name encode_labels
    build_response concat pack_3h pack_2hih split strip
reply_run = refl

answer_for-any_ours_example : is_some (some reply) ≡ any_ours here asked
answer_for-any_ours_example = answer_for-any_ours asked here sender (some reply) reply_run
