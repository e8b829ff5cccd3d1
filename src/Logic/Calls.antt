-- ===== src/Logic/Calls.antt =====
-- logic/state_logic.go: what the broker asks of the user state that redis keeps, as values.
use longcom.Base.{Text, ◌++◌, bytes}

-- `SetUserState(appName, topic, userID, field, value)` and
-- `ExpireUserState(appName, topic, userID, node)`.
pub data StateCall : Type 0 where
  set_user_state : (app_name topic user_id field value : Text) → StateCall
  expire_user_state : (app_name topic user_id node : Text) → StateCall

-- `fmt.Sprintf("{longcom}%s_%s", node, f)`
unfoldable pub user_state_field : Text → Text → Text
user_state_field node f = bytes "{longcom}" ++ (node ++ (bytes "_" ++ f))
