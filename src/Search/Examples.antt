-- ===== src/Search/Examples.antt =====
-- Runs of a search and of the message identifiers.
use croton_mcp.Base.{
  zero, suc, subst, ap, ℕ, ◌≤◌, true, false, ◌≡◌, refl, Option, none, some, List, [], ◌∷◌, ◌++◌,
  Bytes, codes, arith, length,
}
use croton_mcp.Codes.{mailbox_not_found, stale_message_id}
use croton_mcp.Search.Accepted.{select_highest_uids-bounded_search_uids}
use croton_mcp.Search.Falling.{uids_of-validate_fetched}
use croton_mcp.Search.Fetched.{
  date_unknown, is_unread, Metadata, uids_of, remove_uid, gather, strike, validate_fetched,
}
use croton_mcp.Search.Highest.{IsHighest, select_highest_uids-IsHighest}
use croton_mcp.Search.Identifier.{Payload, Codec, encode_message_id, decode_message_id}
use croton_mcp.Search.Page.{
  Finder, Page, refuse_query, insert_metadata, sort_metadata, add_message, add_messages, add_window,
  search_turn, search_windows, search_mail_page,
}
use croton_mcp.Search.PageBounds.{IsBoundedPage, search_mail_page-IsBoundedPage}
use croton_mcp.Search.Ranges.{Range, add_uids, add_range, add_ranges, bounded_search_uids}
use croton_mcp.Search.RangesSafe.{AreDistinctIn, AreWords, bounded_search_uids-Fits}
use croton_mcp.Search.RoundTrip.{
  IsSound, IsAuthentic, decode_message_id-encode_message_id, decode_message_id-IsAuthentic,
}
use croton_mcp.Search.Select.{insert_uid, sort_uids, judge_uids, select_highest_uids}
use croton_mcp.Text.{equal}
use croton_mcp.Triage.Result.{Context, ok, done, failed}
use croton_mcp.Triage.Source.{mem_uid}
use croton_mcp.Wire.Observer.{Window}

abbrev window : Window
window = record { first = 1; last = 5 }

selects_two : select_highest_uids (2 ∷ 5 ∷ 3 ∷ []) window 2 ≡ done (5 ∷ 3 ∷ [])
unfolding select_highest_uids sort_uids insert_uid judge_uids
selects_two = refl

select_highest_uids-IsHighest_example : IsHighest (2 ∷ 5 ∷ 3 ∷ []) window 2 (5 ∷ 3 ∷ [])
select_highest_uids-IsHighest_example =
    select_highest_uids-IsHighest (2 ∷ 5 ∷ 3 ∷ []) window 2 (5 ∷ 3 ∷ []) selects_two

abbrev answered : List Range
answered = record { start = 2; stop = 3 } ∷ record { start = 5; stop = 5 } ∷ []

answered-AreWords : AreWords answered
answered-AreWords = (omega arith, omega arith, (omega arith, omega arith, tt))

some-injective : {A : Type 0} {x y : A} → some x ≡ some y → x ≡ y
some-injective e = cc e

some-AreWords : (l : List Range) → some answered ≡ some l → AreWords l
some-AreWords l e = subst AreWords (some-injective e) answered-AreWords

abbrev three : List ℕ
three = 2 ∷ 3 ∷ 5 ∷ []

decodes_three : bounded_search_uids (some answered) window 5 ≡ done (2 ∷ 3 ∷ 5 ∷ [])
unfolding bounded_search_uids add_ranges add_range add_uids mem_uid
decodes_three = refl

bounded_search_uids-Fits_example : AreDistinctIn window three × (length three ≤ 5)
bounded_search_uids-Fits_example =
    bounded_search_uids-Fits (some answered) window 5 (2 ∷ 3 ∷ 5 ∷ []) some-AreWords decodes_three

select_highest_uids-bounded_search_uids_example :
    (out : List ℕ) × (select_highest_uids (2 ∷ 3 ∷ 5 ∷ []) window 2 ≡ done out)
    × IsHighest (2 ∷ 3 ∷ 5 ∷ []) window 2 out
select_highest_uids-bounded_search_uids_example =
    select_highest_uids-bounded_search_uids (some answered) window 2 (2 ∷ 3 ∷ 5 ∷ []) some-AreWords
      decodes_three

-- What a server answers of a message.
abbrev fetched : ℕ → Metadata
fetched uid = record {
  id = [];
  mailbox = [];
  uid_validity = 0;
  uid = 0;
  subject = codes "hello";
  size = 10;
  sender = [];
  date = [];
  date_source = date_unknown;
  read_state = is_unread;
  is_truncated = false;
  own_uid = uid;
}

accepts_both : validate_fetched (5 ∷ 3 ∷ []) (fetched 3 ∷ fetched 5 ∷ []) ≡ none
unfolding validate_fetched gather strike mem_uid remove_uid
accepts_both = refl

uids_of-validate_fetched_example : uids_of (sort_metadata (fetched 3 ∷ fetched 5 ∷ [])) ≡ 5 ∷ 3 ∷ []
uids_of-validate_fetched_example =
    uids_of-validate_fetched 6 (5 ∷ 3 ∷ []) (fetched 3 ∷ fetched 5 ∷ [])
      (omega arith, (omega arith, tt)) accepts_both

abbrev calm : Context
calm = record { canceled = none; past_deadline = false }

abbrev fetch_all : List ℕ → List Metadata
fetch_all [] = []
fetch_all (u ∷ us) = fetch_all us ++ fetched u ∷ []

-- A mailbox of three messages, whose identifiers are their UIDs.
abbrev small : Finder (Unit {0})
small = record {
  now = λ w. calm;
  examine =
      λ w. (w, record { context = calm; reply = ok (record { uid_validity = 9; uid_next = 6 }) });
  search_window = λ v n w. (w, record { context = calm; reply = ok (2 ∷ 5 ∷ 3 ∷ []) });
  fetch_metadata = λ us n w. (w, record { context = calm; reply = ok (fetch_all us) });
  identify = λ p. done (p.uid ∷ []);
  marshal = λ m. some (m.id ++ m.subject);
  mailbox = codes "INBOX";
  max_search_results = 2;
  max_output_bytes = 15;
  max_header_bytes = 100;
}

abbrev named : ℕ → Metadata
named uid = record (fetched uid) {
  id = uid ∷ [];
  mailbox = codes "INBOX";
  uid_validity = 9;
  uid = uid;
}

abbrev small_page : Page
small_page = record { messages = named 5 ∷ named 3 ∷ []; truncated = true }

finds_two : (search_mail_page small tt).1.reply ≡ ok small_page
unfolding search_mail_page search_windows search_turn select_highest_uids sort_uids insert_uid
    judge_uids add_window validate_fetched gather strike mem_uid remove_uid sort_metadata
    insert_metadata add_messages add_message
finds_two = refl

search_mail_page-IsBoundedPage_example : IsBoundedPage small (small.examine tt).1.reply small_page
search_mail_page-IsBoundedPage_example =
    search_mail_page-IsBoundedPage small tt small_page (omega arith) finds_two

refuses_no_mailbox : refuse_query [] [] [] 100 ≡ some mailbox_not_found
unfolding refuse_query
refuses_no_mailbox = refl

abbrev copies : ℕ → ℕ → Bytes
copies zero c = []
copies (suc n) c = c ∷ copies n c

abbrev read_payload : Bytes → Option Payload
read_payload (v ∷ u ∷ m) = some (record { mailbox = m; uid_validity = v; uid = u })
read_payload _ = none

-- A codec that writes the numbers as bytes, in front of the name.
abbrev plain : Codec
plain = record {
  marshal = λ p. some (p.uid_validity ∷ p.uid ∷ p.mailbox);
  unmarshal = read_payload;
  mac = λ b. copies 32 (length b);
  encode_base64 = λ b. b;
  decode_base64 = λ b. some b;
}

length-copies : (n c : ℕ) → length (copies n c) ≡ n
length-copies zero c = refl
length-copies (suc n) c = ap suc (length-copies n c)

plain-IsSound : IsSound plain
plain-IsSound = record {
  mac_length = λ b. length-copies 32 (length b);
  base64 = λ b. refl;
  no_empty_json = refl;
}

abbrev inbox_seven : Payload
inbox_seven = record { mailbox = codes "INBOX"; uid_validity = 9; uid = 7 }

abbrev inbox_seven_id : Bytes
inbox_seven_id = (9 ∷ 7 ∷ codes "INBOX") ++ copies 32 7

encodes_seven : encode_message_id plain inbox_seven ≡ done inbox_seven_id
unfolding encode_message_id
encodes_seven = refl

plain_json : (b : Bytes) → plain.marshal inbox_seven ≡ some b → plain.unmarshal b ≡ some inbox_seven
plain_json b e = subst (λ c. read_payload c ≡ some inbox_seven) (some-injective e) refl

decode_message_id-encode_message_id_example :
    decode_message_id plain inbox_seven_id ≡ done inbox_seven
decode_message_id-encode_message_id_example =
    decode_message_id-encode_message_id plain plain-IsSound inbox_seven inbox_seven_id plain_json
      encodes_seven

decodes_seven : decode_message_id plain inbox_seven_id ≡ done inbox_seven
unfolding decode_message_id equal
decodes_seven = refl

decode_message_id-IsAuthentic_example : IsAuthentic plain inbox_seven_id inbox_seven
decode_message_id-IsAuthentic_example =
    decode_message_id-IsAuthentic plain inbox_seven_id inbox_seven decodes_seven

decodes_no_forgery :
    decode_message_id plain ((9 ∷ 8 ∷ codes "INBOX") ++ copies 31 7) ≡ failed stale_message_id
unfolding decode_message_id equal
decodes_no_forgery = refl
