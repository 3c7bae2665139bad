-- ===== src/Adapter/Wechat.antt =====
-- wechatAdapter (install/ignore/sdk/ts/dist/esm/wechat.js): its storage over wx.*StorageSync.
use airway_im_plugin.Base.{
  ◌≡◌, ◌≢◌, refl, Option, none, some, arith, if◌then◌else◌, Option-cases, inl, inr,
}
use airway_im_plugin.Text.{Text, text_eq}
use airway_im_plugin.Sync.{Stored, blank, corrupt, parsed}
use airway_im_plugin.Adapter.{StorageAdapter, IsBestEffort, or_same}

-- A value of the storage: a text, or anything else.
pub data WxValue : Type 0 where
  text_value : Stored → WxValue
  other_value : WxValue

-- The platform's storage. A call that throws gives `none`, also where there is no wx.
pub record WxStorage : Type 1 where
  pub State : Type 0
  pub get_storage_sync : State → Text → Option WxValue
  pub set_storage_sync : State → Text → Stored → Option State
  pub remove_storage_sync : State → Text → Option State

-- Its documented behaviour: as for localStorage, but a key that is not there reads as the empty text.
pub record IsWxStorage (P : WxStorage) : Type 0 where
  pub set_get :
      (w w' : P.State) (k j : Text) (v : Stored)
      → P.set_storage_sync w k v ≡ some w'
      → P.get_storage_sync w' j
        ≡ (if text_eq k j then some (text_value v) else P.get_storage_sync w j)
  pub remove_get :
      (w w' : P.State) (k j : Text)
      → P.remove_storage_sync w k ≡ some w'
      → P.get_storage_sync w' j
        ≡ (if text_eq k j then some (text_value blank) else P.get_storage_sync w j)

-- typeof value === "string" && value.length > 0 ? value : null
unfoldable pub text_or_null : Option WxValue → Option Stored
text_or_null none = none
text_or_null (some other_value) = none
text_or_null (some (text_value blank)) = none
text_or_null (some (text_value corrupt)) = some corrupt
text_or_null (some (text_value (parsed v))) = some (parsed v)

-- The adapter's `storage`.
unfoldable pub wechat_storage : WxStorage → StorageAdapter
unfolding text_or_null or_same
wechat_storage P = record {
  State = P.State;
  get = λ w k. text_or_null (P.get_storage_sync w k);
  set = λ w k v. or_same w (P.set_storage_sync w k v);
  remove = λ w k. or_same w (P.remove_storage_sync w k);
}

kept_text : (v : Stored) → v ≢ blank → text_or_null (some (text_value v)) ≡ some v
unfolding text_or_null
kept_text blank ne = absurd (ne refl)
kept_text corrupt ne = refl
kept_text (parsed v) ne = refl

module _ (P : WxStorage) (h : IsWxStorage P) where
  pub wechat_storage-IsBestEffort : IsBestEffort (wechat_storage P)
  unfolding wechat_storage
  wechat_storage-IsBestEffort = record {
    get-set = λ w k v ne. elim (Option-cases (P.set_storage_sync w k v)) [
      | inl e ↦ inl (ground (arith, e))
      | inr (w', e) ↦ inr (λ j. ground (arith, e, h.set_get w w' k j v e, kept_text v ne))
    ];
    get-remove = λ w k. elim (Option-cases (P.remove_storage_sync w k)) [
      | inl e ↦ inl (ground (arith, e))
      | inr (w', e) ↦ inr (λ j. ground (arith, e, h.remove_get w w' k j e))
    ];
  }
