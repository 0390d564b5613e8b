-- ===== src/Exec/Requests.antt =====
-- A request, the reading of its answer and the settings leave the tables alone.
use hound_bot.Base.{String}
use hound_bot.Json.{Json, null, boolean, number, text, array, object}
use hound_bot.HttpClient.{HttpRequest, HttpResponse}
use hound_bot.Exec.{Error, Exec}
use hound_bot.Exec.Laws.{Leaves, tables_of, tables_rules}
use hound_bot.Exec.Responses.{raise_for_status, decode, json_text, expect_keys, send_with}

pub json_text-tables : (j : Json) → Leaves tables_of (json_text j)
unfolding json_text
json_text-tables null = search tables_rules
json_text-tables (boolean b) = search tables_rules
json_text-tables (number n b) = search tables_rules
json_text-tables (text s) = search tables_rules
json_text-tables (array xs) = search tables_rules
json_text-tables (object ms) = search tables_rules

pub send_with-tables : (token : Json) (q : HttpRequest) → Leaves tables_of (send_with token q)
unfolding send_with
send_with-tables token q = search (tables_rules, json_text-tables)

pub decode-tables : (r : HttpResponse) → Leaves tables_of (decode r)
unfolding decode
decode-tables r = search tables_rules

pub raise_for_status-tables : (r : HttpResponse) → Leaves tables_of (raise_for_status r)
unfolding raise_for_status
raise_for_status-tables r = search tables_rules

pub expect_keys-tables :
    {A : Type 0} (wrap : String → Error) (prefix : String) (m : Exec A)
    → Leaves tables_of m
    → Leaves tables_of (expect_keys wrap prefix m)
unfolding expect_keys
expect_keys-tables wrap prefix m h = search tables_rules

pub ruleset request_rules = (
  tables_rules, json_text-tables, send_with-tables, decode-tables, raise_for_status-tables,
  expect_keys-tables,
)
