-- ===== src/Broker/Callback.antt =====
-- broker/callback.go and protocols/types.go: the requests that the broker makes to the callback URL
-- of a session. The HTTP request itself, and what it answers, are outside the model.
pub mod Outward
use longcom.Base.{ℕ, [], Option, none, some, Text, if◌then◌else◌, ◌==◌, text_eq}
use longcom.Broker.Conn.{ConnectionSession}

-- The data of the three kinds of request, which `CallbackDataType` tells apart.
pub data CallbackData : Type 0 where
  receive : (message : Text) → CallbackData
  connect : (connect_time : ℕ) → CallbackData
  disconnect : (connect_time disconnect_time : ℕ) → CallbackData

-- The numbers of `CallbackDataType`.
unfoldable pub data_type : CallbackData → ℕ
data_type (receive message) = 1
data_type (connect connect_time) = 2
data_type (disconnect connect_time disconnect_time) = 3

pub record CallbackRequest : Type 0 where
  pub app_name : Text
  pub topic : Text
  pub user_id : Text
  pub content : CallbackData

-- The request and its URL, or nothing for a session with no callback.
unfoldable pub callback_handler : ConnectionSession → CallbackData → Option (Text × CallbackRequest)
callback_handler c content =
    if c.callback == []
    then none
    else some (
      c.callback,
      record { app_name = c.business; topic = c.topic; user_id = c.alias; content = content },
    )

unfoldable pub message_callback_handler : ConnectionSession → Text → Option (Text × CallbackRequest)
unfolding callback_handler
message_callback_handler c msg = callback_handler c (receive msg)

unfoldable pub connect_callback_handler : ConnectionSession → Option (Text × CallbackRequest)
unfolding callback_handler
connect_callback_handler c = callback_handler c (connect c.connect_time)

unfoldable pub disconnect_callback_handler : ConnectionSession → ℕ → Option (Text × CallbackRequest)
unfolding callback_handler
disconnect_callback_handler c now = callback_handler c (disconnect c.connect_time now)
