-- ===== src/Wall/ThreadWire/Tests.antt =====
-- Messages about threads on concrete inputs.
use filenymous.Prelude.{◌≡◌, refl, none, some, codes, text_eq}
use filenymous.Prelude.Json.{
  null, string, number, integer, pos, object, Fields, end, with_field, find, int, as_string,
  as_object,
}
use filenymous.Prelude.Options.{Each}
use filenymous.Wall.Collab.{is_label, is_task_id}
use filenymous.Wall.Threads.{Thread, opened}
use filenymous.Wall.ThreadWire
use filenymous.Wall.ThreadWire.{
  ThreadMessage, thread_open, clean_thread, parse_thread_message, is_thread_id, optional_text,
  clean,
}
use filenymous.Wall.ThreadWire.Accepted.{IsMessage, parse_thread_message-IsMessage}
use filenymous.Wall.ThreadWire.Relay.{thread_fields, clean_thread-relays}

wire_functions : Unit {0}
unfolding clean_thread parse_thread_message is_thread_id optional_text clean find int as_string
    as_object text_eq is_label is_task_id filenymous.Wall.ThreadWire.clean_fields
    filenymous.Wall.ThreadWire.state_named filenymous.Wall.ThreadWire.present
    filenymous.Wall.ThreadWire.fits_goal filenymous.Wall.ThreadWire.parse_named
    filenymous.Wall.ThreadWire.parse_open filenymous.Wall.ThreadWire.cleaned_goal
    filenymous.Wall.ThreadWire.any_text
wire_functions = tt

abbrev sent : Fields
sent = with_field (codes "id") (string (codes "th-0123456789abcdef")) (
    with_field (codes "a") (string (codes "peer:1")) (
      with_field (codes "b") (string (codes "peer:22")) (
        with_field (codes "state") (string (codes "open")) (
          with_field (codes "at") (number (integer (pos 5))) (
            with_field (codes "n") (number (integer (pos 0))) (
              with_field (codes "goal") (string (codes "plan"))
                (with_field (codes "more") null end)))))))

abbrev plan : Thread
plan = record {
  id = codes "th-0123456789abcdef";
  a = codes "peer:1";
  b = codes "peer:22";
  goal = some (codes "plan");
  task = none;
  state = opened;
  at = 5;
  closed_by = none;
  n = 0;
}

plan_accepted : clean_thread (object sent) ≡ some plan
unfolding wire_functions
plan_accepted = refl

clean_thread-relays_example : clean_thread (object (thread_fields plan)) ≡ some plan
clean_thread-relays_example = clean_thread-relays (object sent) plan plan_accepted

abbrev request : Fields
request = with_field (codes "t") (string (codes "thread-open")) (
    with_field (codes "to") (string (codes "peer:3"))
      (with_field (codes "goal") (string (codes " meet ")) end))

request_parsed :
    parse_thread_message request ≡ some (thread_open (codes "peer:3") (some (codes "meet")) none)
unfolding wire_functions
request_parsed = refl

parse_thread_message-IsMessage_example : Each IsMessage (parse_thread_message request)
parse_thread_message-IsMessage_example = parse_thread_message-IsMessage request
