-- ===== src/Adapter/Requests/Agree.antt =====
-- The REST client cannot tell the adapters apart.
use airway_im_plugin.Base.{ℕ, ◌≡◌, refl, ap, Option, none, some}
use airway_im_plugin.Text.{Text}
use airway_im_plugin.Json.{Json, null, bool, num, str, arr, obj}
use airway_im_plugin.Http.{Reply, Body, raw, outcome}
use airway_im_plugin.Adapter.Requests.{
  WxData, wx_text, wx_value, success, fetched, body_of, parse_body, browser_reply, wechat_body,
  wechat_reply,
}

-- What wx.request makes of a text, by its documentation: the value that it parses to, or the text.
abbrev pub wx_parsed : Option Json → Text → WxData
wx_parsed none t = wx_text t
wx_parsed (some (str s)) t = wx_text s
wx_parsed (some null) t = wx_value (some null)
wx_parsed (some (bool b)) t = wx_value (some (bool b))
wx_parsed (some (num n)) t = wx_value (some (num n))
wx_parsed (some (arr vs)) t = wx_value (some (arr vs))
wx_parsed (some (obj fs)) t = wx_value (some (obj fs))

parsed_bodies :
    (parse : Text → Option Json) (o : Option Json) (t : Text)
    → parse t ≡ o
    → parse_body parse t ≡ wechat_body parse (wx_parsed o t)
unfolding parse_body body_of wechat_body
parsed_bodies parse none t e = rw (e, parse_body) (ap raw e)
parsed_bodies parse (some (str s)) t e = rw (e, parse_body) refl
parsed_bodies parse (some null) t e = rw (e, parse_body) refl
parsed_bodies parse (some (bool b)) t e = rw (e, parse_body) refl
parsed_bodies parse (some (num n)) t e = rw (e, parse_body) refl
parsed_bodies parse (some (arr vs)) t e = rw (e, parse_body) refl
parsed_bodies parse (some (obj fs)) t e = rw (e, parse_body) refl

-- A server that answers with a text: requestOnce comes to the same in the browser and in WeChat.
adapters_agree :
    (parse : Text → Option Json) (status : ℕ) (t : Text)
    → outcome (browser_reply parse (fetched status t))
      ≡ outcome (wechat_reply parse (success status (wx_parsed (parse t) t)))
unfolding browser_reply wechat_reply
adapters_agree parse status t =
    ap (λ (b : Body). outcome (Reply.response status b)) (parsed_bodies parse (parse t) t refl)
