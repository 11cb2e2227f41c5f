-- ===== src/GameMonkey/Errors.antt =====
-- What `ExecuteString` of multiscript/GMScriptContext.cpp does with the errors of a script.
use multi_script.Prelude.{
  ◌≡◌, ◌<◌, sym, ap, ◌∙◌, true, false, List, [], ◌∷◌, ◌++◌, append_assoc, append-nil, map, Bytes,
  codes, length, length-append, lt→ltb, arith, ◌==◌,
}
use multi_script.Outcome.{ok, stop, undefined}
use multi_script.Interface.Utilities.{sprintf}
use multi_script.GameMonkey.Api.{GmApi}
use multi_script.GameMonkey.Context.{GmScriptContext, report_errors, run_string, output}

-- Each message fits into the buffer of 1024 bytes with its newline and its zero.
abbrev pub Short : List Bytes → Type 0
Short [] = Unit
Short (m ∷ ms) = (length m < 1023) × Short ms

abbrev pub line : Bytes → Bytes
line m = m ++ codes "\n"

sprintf-line : (m : Bytes) → length m < 1023 → sprintf 1024 (line m) ≡ ok (line m)
unfolding sprintf
sprintf-line m short =
    rw (lt→ltb (length (line m)) 1024 (omega (arith, length-append {0} m (codes "\n"))))

module _ (api : GmApi) where
  open api use {State, execute_string, log_entries, log_reset}

  output-logged :
      (text : Bytes) (c : GmScriptContext api)
      → c.has_logger ≡ true
      → output api text c ≡ ok (record c { log = c.log ++ text ∷ [] })
  unfolding output
  output-logged text c logger = rw logger

  report_errors-Short :
      (ms : List Bytes) (c : GmScriptContext api)
      → c.has_logger ≡ true
      → Short ms
      → report_errors api ms c ≡ ok (record c { log = c.log ++ map line ms })
  unfolding report_errors
  report_errors-Short [] c logger short =
      ap (λ (l : List Bytes). ok (record c { log = l })) (sym (append-nil c.log))
  report_errors-Short (m ∷ ms) c logger (fits, short) =
      rw (sprintf-line m fits, output-logged (line m) c logger)
        (report_errors-Short ms (record c { log = c.log ++ line m ∷ [] }) logger short
          ∙ ap (λ (l : List Bytes). ok (record c { log = l }))
              (append_assoc c.log (line m ∷ []) (map line ms)))

  -- A text with errors, in a context with a logger, each of whose messages is short: `ExecuteString`
  -- hands every message of the machine's log to the logger, in order and as a line, clears that log,
  -- and returns `false`.
  pub run_string-errors :
      (string : Bytes) (c : GmScriptContext api)
      → ((execute_string string c.machine).0 == 0) ≡ false
      → c.has_logger ≡ true
      → Short (log_entries (execute_string string c.machine).1)
      → run_string api string c
        ≡ ok (
          false,
          record c {
            machine = log_reset (execute_string string c.machine).1;
            log = c.log ++ map line (log_entries (execute_string string c.machine).1);
          },
        )
  unfolding run_string
  run_string-errors string c errors logger short =
      let m = (execute_string string c.machine).1 in
      rw (errors, report_errors-Short (log_entries m) (record c { machine = m }) logger short)

  -- Without a logger a text with errors that leave a short message is undefined.
  run_string-no_logger :
      (string : Bytes) (c : GmScriptContext api) (message : Bytes) (rest : List Bytes)
      → ((execute_string string c.machine).0 == 0) ≡ false
      → c.has_logger ≡ false
      → log_entries (execute_string string c.machine).1 ≡ message ∷ rest
      → length message < 1023
      → run_string api string c ≡ stop undefined
  unfolding run_string report_errors output
  run_string-no_logger string c message rest errors silent entries short =
      rw (errors, entries, sprintf-line message short, silent)
