-- ===== src/Rfc5444/Reader/Message/Malformed.antt =====
-- A message that cannot be parsed, in `_handle_message` (src-api/rfc5444/rfc5444_reader.c).
use oonf_api.Base.Exec.{done, AnyFault, Ends-eq-done, ◌>>=◌}
use oonf_api.Base.{ℕ, ◌≤◌, ◌≡◌, refl, sym, false, List, length, take, drop, ◌-◌, some}
use mathlib.Core.Bool.{false≢true}
use oonf_api.Common.Netaddr.{Families}
use oonf_api.Rfc5444.Reader.Dispatch.{Stage}
use oonf_api.Rfc5444.Reader.Fuel.{with_value, Value}
use oonf_api.Rfc5444.Reader.Message.{
  Reader, is_drop_message, may_forward, handle_forwarding, cleanup_message, start_run, handle_body,
}
use oonf_api.Rfc5444.Reader.Parts.Ending.{PartsEnd, parse_parts-PartsEnd}
use oonf_api.Rfc5444.Reader.Parts.{Parts, parse_parts}
use oonf_api.Rfc5444.Reader.Verdict.{is_drop}
use oonf_api.Rfc5444.Result.{RfcResult, okay, drop_message, drop_msg_but_forward, is_okay}

is_drop-may_forward :
    (r : RfcResult) → is_drop r ≡ false → is_okay r ≡ false → may_forward r ≡ false
is_drop-may_forward okay h k = absurd (false≢true (sym k))
is_drop-may_forward drop_msg_but_forward h k = absurd (false≢true (sym h))
is_drop-may_forward _ h k = refl

is_drop-is_drop_message : (r : RfcResult) → is_drop r ≡ false → is_drop_message r ≡ false
is_drop-is_drop_message drop_message h = absurd (false≢true (sym h))
is_drop-is_drop_message _ h = refl

handle_forwarding_no :
    {W : Type 0} (parser : Reader W) (r : RfcResult) (bytes : List ℕ) (s : Stage W)
    → may_forward r ≡ false
    → handle_forwarding parser r bytes s ≡ s
unfolding handle_forwarding
handle_forwarding_no parser r bytes s h = rw h refl

cleanup_message_error :
    {W : Type 0} (parser : Reader W) (buf : List ℕ) (start end : ℕ) (r : RfcResult) (m : Parts)
    (s : Stage W)
    → is_drop r ≡ false
    → is_okay r ≡ false
    → done (some (cleanup_message parser buf start end parser.memory (r, start_run parser m s)))
      ≡ done (some (record { result = r; end = some end; parser = parser; stage = s }))
unfolding cleanup_message
cleanup_message_error parser buf start end r m s h bad = rw (is_drop-is_drop_message r h) (
    rw
      (handle_forwarding_no parser r (take (end - start) (drop start buf)) s
        (is_drop-may_forward r h bad))
      refl)

-- When a message whose end lies in the buffer cannot be parsed, handling it returns the parser's
-- error, with the pointer at the end of the message: no callback has been called and nothing has
-- been forwarded, so the context and the application's state are as the header has left them, and
-- the consumers and the memory are as before.
pub handle_body_malformed :
    {W : Type 0} (af : Families) (parser : Reader W) (buf : List ℕ) (start end ptr : ℕ)
    (s : Stage W) (r : RfcResult) (m : Parts)
    → end ≤ length buf
    → parse_parts buf end s.context.addr_len parser.memory ptr ≡ done (some (r, m))
    → is_okay r ≡ false
    → handle_body af parser buf start end ptr s
      ≡ done (some (record { result = r; end = some end; parser = parser; stage = s }))
unfolding handle_body
handle_body_malformed af parser buf start end ptr s r m fits parsed bad =
    let h : PartsEnd buf end fits parser.memory ptr (r, m) =
      Ends-eq-done AnyFault (Value (PartsEnd buf end fits parser.memory ptr))
        (parse_parts buf end s.context.addr_len parser.memory ptr)
        (parse_parts-PartsEnd buf end fits s.context.addr_len parser.memory ptr) parsed in
    rw parsed (
      rw (bad, with_value, ◌>>=◌)
        (rw h.kept (cleanup_message_error parser buf start end r m s h.verdict bad)))
