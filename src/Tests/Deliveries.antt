-- ===== src/Tests/Deliveries.antt =====
-- A message that Telegram accepts after it has asked to wait.
use lite_checker.Prelude.{ℕ, zero, suc, ◌≡◌, refl, String, true, none, some, [], ◌∷◌, Option}
use lite_checker.Json.{Json, pos, int, boolean, obj, field, end, get}
use lite_checker.Collector.Telegram.{
  Exchange, responded, read, returned, send_chunk, send_from, judge, retry_after, is_accepted,
}

abbrev wait_reply : Json
wait_reply = obj (field "parameters" (obj (field "retry_after" (int (pos 7)) end)) end)

abbrev good_reply : Json
good_reply =
    obj
      (field "ok" (boolean true) (field "result" (obj (field "message_id" (int (pos 5)) end)) end))

abbrev answers : ℕ → Exchange
answers n = elim n [
  | zero ↦ responded 429 (read none)
  | suc k ↦ elim k [
    | zero ↦ responded 429 (read (some wait_reply))
    | suc j ↦ responded 200 (read (some good_reply))
  ]
]

abbrev no_float : String → Option ℕ
no_float t = none

chunk-accepted : send_chunk no_float 3 "hello" answers ≡ (returned, 7000000 ∷ [])
unfolding send_chunk send_from judge retry_after is_accepted get
chunk-accepted = refl
