-- ===== src/Lib.antt =====
-- pipeOS: the parts of a Machine that decide what runs, what it may cost and what is said on the LAN.
--
-- pipeOS is an appliance image. Its Python programs under overlay/usr/local/share/pipeos/web serve a
-- dashboard, start scheduled jobs, count what the agents spend and find other Machines by mDNS.
-- Scheduled jobs carry an expression that cronspec.py reads; schedtick.py asks it every minute which
-- jobs fire, and asks ledger.py whether a cap stops them; mdnsd.py and the dashboard speak mDNS with
-- lanid.py.
--
-- The files, with paths of the source from overlay/usr/local/share/pipeos/web:
--   Prelude   texts as lists of code points, lists and sets over the native numbers, results
--   Wire      lanid.py, the wire half: Name (encode_name, read_name), Struct (the formats of
--             `struct`), Utf8, Txt (_txt_kv, rr_txt), Packet (parse_packet, the rr_* builders,
--             build_response, build_query)
--   Cron      cronspec.py: Calendar (what it uses of `datetime`), Field (_num, _field), Spec (parse,
--             parse_for_job, day_ok, matches), NextRun (next_run)
--   Ledger    ledger.py: Money (amounts), Pause (the pause document and its readers), Cap (_scope_hit
--             and the agents' caps), Cap/Files (_write_markers and enforce_cap); Rates (rate_for);
--             Cursor (_load_cursor), Rows (actor_for and what a row holds), Ingest (_ingest_locked,
--             _prune); Ingest/Lines, Ingest/Once, Ingest/Torn, Ingest/Tail and Rates/Longest for their
--             theorems
--   Tick      schedtick.py: read_jobs and main, as a step on the state of last fired minutes; Due,
--             Once and Capped for its theorems, the last one together with the ledger
--   Mdns      mdnsd.py: absorb_response, prune and roster_upsert on the dict of peers and the roster;
--             Own, Expiry and Roster for their theorems; Mdns/Answer what a Machine says of itself
--             (our_names, our_records, answer_for, handle_packet), with Answer/Silent for its theorem
--   Cluster   cluster.py: the member list (read, write with bundle and status, member_id); Edits (init,
--             add_member, drop_member, replace, join, reconcile); Rolling (rolling_ok); Place
--             (pick_idlest, start_agent); Calls (push, remove, add, the token of a join)
--             and Calls/Resolve (resolve, adopt);
--             Sorted, Saved, Invariant, Membership, Rolling/Turns, Rolling/Lowest, Place/Idlest,
--             Place/Warned, Calls/Token and Calls/Reported for their theorems
--   Sched     schedctl.py: Flags (parse_flags, apply), Commands (the verbs and main); Flags/Named,
--             Commands/Table and Commands/Kept for their theorems
--   Vault     vault.py: the envelope and its two slots; Names (NAME_RE, parse_needs, shareable),
--             Operations (init to rephrase), Listing (list_), Export (export); Refinement and its
--             children, Export/Written and Export/Directory for their theorems
--   Webd      webd.py: Sessions (new_session to drop_session), Passwords (hash_password, check_hash),
--             Users (read_users to write_terminals, apply_terminals), Callers (authed and the guards),
--             Accounts (api_users_set, api_users_del), Creation (user_add), SignIn (api_login,
--             api_logout, api_password), Headers (cookies, origin), Paths (the tables of handlers), Gate
--             (_cert_fence, do_GET, do_POST); Ending, Sessions/Dropped, Passwords/Checked, SignIn/Admitted
--             and the children of Accounts and Gate for their theorems
--   Tests     concrete runs, and the theorems at concrete inputs
--
-- State. The loop of read_name is a function on a cursor (offset, labels, resume offset, hops). The
-- ledger's files are a record: the marker files of the month, the plain marker `paused`, the document
-- paused.json, and the messages that were sent; enforce_cap takes it and returns the next one. An
-- exception is an error value, with a constructor for each place that raises.
-- The tick takes the state of last fired minutes and returns the next one, the jobs it starts and what
-- it logs.
-- An edit of the member list takes the Machine's files (the list, the bundle, the published status, the
-- cache of identities) and returns the next ones. The vault's operations take the file's envelope and
-- return the next one; what they draw at random and the clock are arguments. A command of schedctl.py
-- takes the table of jobs and a list of effects (saved, caps checked, a job started) and returns both.
--
-- A handler of webd.py takes the files it works on (users.json, web-admin.conf, the sessions,
-- terminals.conf) with a log of what it calls outside of Python, and returns its answer or refusal with
-- the next files: what it did before a refusal stays done. MUTATE_LOCK lets one of them run at a time.
-- A pass of ingest takes the cursor and the files of the months and returns the next ones.
--
-- Bounds. read_name runs on 17 * (length + 1) + 1 rounds: at most 16 pointers are followed, and
-- between two of them a label moves on by a byte at least. _txt_kv runs on the length of its record.
-- next_run has limit_days + 2 rounds, one for each day. Numbers are natural numbers; where `struct`
-- packs 16 or 32 bits, a larger number is an error, as in Python.
--
-- Not modelled. Sockets, files' permissions, locks and processes; JSON on disk, whose well-formed
-- content stands for it; Python's floats: an amount of money is its number of ten-thousandths, and
-- how "%.2f" spells it is a parameter. An IPv4 address is its four octets. Of the dict that enforce_cap
-- returns only `changed` is kept. The end of Python's calendar in the year 9999 is not modelled.
-- cronspec's `describe`, ledger's totals, mdnsd.py's main loop, TLS and the page of a cluster, the
-- vault's migration, the other handlers of webd.py, updates.py, lan.py and nasctl.py are not here yet.
-- openssl, hashlib and json are parameters of the vault, and openssl and hashlib of the member list;
-- in webd.py openssl, pipeos-user and samba are parameters or entries of the log, and what a handler
-- answers beside its result (a list of problems, whether the save succeeded) is left out; its files are
-- taken to be written and removed without an OSError. What a tick hands to the shell counts as started,
-- also where Popen then fails, which only the log tells. json and
-- datetime are parameters of ingest, as are the float of a cost and the rates. Texts are lowered in
-- ASCII only; shell tools and the browser's side are not Python.
pub mod Prelude
pub mod Wire
pub mod Cron
pub mod Ledger
pub mod Tick
pub mod Mdns
pub mod Cluster
pub mod Sched
pub mod Vault
pub mod Webd
mod Tests
