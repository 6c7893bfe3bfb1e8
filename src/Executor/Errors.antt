-- ===== src/Executor/Errors.antt =====
-- The classification of errors in sanlight_mesh/gateway_executor.py.
use sanlight_mesh_mqtt_gatew.Base.{
  Bool, true, false, not, ◌&&◌, ◌||◌, String, List, [], ◌∷◌, ◌++◌, codes, all, if◌then◌else◌,
}
use sanlight_mesh_mqtt_gatew.Value.{
  null, boolean, integer, float, text, array, object, Fields, end, field,
}
use sanlight_mesh_mqtt_gatew.Watchdog.{occurs}

-- `_is_mesh_no_response_message`
unfoldable pub is_mesh_no_response_message : String → Bool
is_mesh_no_response_message message =
    occurs (codes "GET-LIVE COMPLETE. No SANlight 0x0D status was observed") (codes message)
    || occurs (codes "GET-MAX UNCONFIRMED. BlueZ accepted the read-only query") (codes message)
    || occurs (codes "GET-DAYLIGHT COMPLETE. No SANlight 0x0F or 0x04 daylight status was observed")
        (codes message)

abbrev texts : Fields → List String
texts end = []
texts (field k (text s) fs) = s ∷ texts fs
texts (field k null fs) = texts fs
texts (field k (boolean b) fs) = texts fs
texts (field k (integer n) fs) = texts fs
texts (field k (float f) fs) = texts fs
texts (field k (array xs) fs) = texts fs
texts (field k (object os) fs) = texts fs

-- The messages of the errors, and those one level down.
unfoldable pub error_messages : Fields → List String
error_messages end = []
error_messages (field k (object nested) fs) = texts nested ++ error_messages fs
error_messages (field k (text s) fs) = s ∷ error_messages fs
error_messages (field k null fs) = error_messages fs
error_messages (field k (boolean b) fs) = error_messages fs
error_messages (field k (integer n) fs) = error_messages fs
error_messages (field k (float f) fs) = error_messages fs
error_messages (field k (array xs) fs) = error_messages fs

abbrev is_empty : List String → Bool
is_empty [] = true
is_empty (s ∷ r) = false

-- `_all_errors_are_mesh_no_response`
unfoldable pub all_errors_are_mesh_no_response : Fields → Bool
unfolding error_messages
all_errors_are_mesh_no_response errors =
    not (is_empty (error_messages errors))
    && all is_mesh_no_response_message (error_messages errors)

-- `_mesh_no_response_details`
abbrev pub mesh_no_response_details : Fields → Fields
mesh_no_response_details errors = field "errors" (object errors) (
    field "failureClass" (text "mesh-no-response") (
      field "transmissionAccepted" (boolean true) (
        field "recoveryHint"
          (text
            "Capture diagnostics before recovery, then run 'sudo sanlight-gateway recover-mesh'.")
          end)))

abbrev pub has_errors : Fields → Bool
has_errors end = false
has_errors (field k v fs) = true

-- `{"errors": errors} if errors else {}`
abbrev pub error_details : Fields → Fields
error_details errors = if has_errors errors then field "errors" (object errors) end else end
