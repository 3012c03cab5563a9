-- ===== src/Client/Messages.antt =====
-- The messages that Client/CRDT.cpp hands to the client, as JSON and bytes.
use scriba.Prelude.{none, some}
use scriba.Prelude.Int.{ℤ, pos}
use scriba.Qt.{Text}
use scriba.Json.{Fields, assign, num, obj}
use scriba.Symbol.Json.{to_json}
use scriba.Crdt.State.{
  OperationType, insert_symbol, delete_symbol, change, align, paste, cursor, Broadcast, one, many,
}
use scriba.Server.{message}
use scriba.Server.Dispatch.{
  insert_symbol_code, delete_symbol_code, change_code, align_code, paste_code,
}
use scriba.Client.{ClientEnv, Client, packet, act}
use scriba.Client.Answers.{cursor_code}
use scriba.Client.Requests.{send_json, create_byte_array_file_content}

abbrev pub code : OperationType → ℤ
code insert_symbol = insert_symbol_code
code delete_symbol = delete_symbol_code
code change = change_code
code align = align_code
code paste = paste_code
code cursor = cursor_code

abbrev pub operation_head : OperationType → ℤ → Fields
operation_head type site =
    assign "operation_type" (num (code type)) (assign "editorId" (num site) (message "operation"))

unfoldable pub operation_message : Text → Broadcast → Fields
operation_message t (one type site s) =
    assign "symbol" (obj (to_json t s)) (operation_head type site)
operation_message t (many type site none ss) = operation_head type site
operation_message t (many type site (some n) ss) =
    assign "tot_symbols" (num (pos n)) (operation_head type site)

-- One symbol goes as JSON, several as bytes.
unfoldable pub send_broadcast :
    {Pixmap : Type 0} → ClientEnv Pixmap → Broadcast → Client Pixmap → Client Pixmap
unfolding send_json
send_broadcast e (one type site s) c = send_json e (operation_message e.text (one type site s)) c
send_broadcast e (many type site tot ss) c =
    act
      (packet
        (create_byte_array_file_content e (operation_message e.text (many type site tot ss)) ss))
      c
