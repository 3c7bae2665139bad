-- ===== src/Error.antt =====
-- The SDK's errors (install/ignore/sdk/ts/dist/esm/error.js: ErrorCode, IMError). An error's message
-- is the value handed to `Error`, before it is made a text.
use airway_im_plugin.Base.{Bool, ◌||◌}
use airway_im_plugin.Base.Int.{ℤ, pos, ◌==ℤ◌}
use airway_im_plugin.Json.{Json}

-- ErrorCode.InvalidCredential and ErrorCode.ConversationNotFound.
abbrev pub invalid_credential : ℤ
invalid_credential = pos 10001

abbrev pub conversation_not_found : ℤ
conversation_not_found = pos 11001

pub record ImError : Type 0 where
  pub code : ℤ
  pub message : Json
  pub status : ℤ

-- error.isAuthError
unfoldable pub is_auth_error : ImError → Bool
is_auth_error e = (e.code ==ℤ invalid_credential) || (e.status ==ℤ pos 401)
