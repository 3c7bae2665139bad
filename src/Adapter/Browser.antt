-- ===== src/Adapter/Browser.antt =====
-- browserAdapter (install/ignore/sdk/ts/dist/esm/browser.js): its storage over the platform's localStorage.
use airway_im_plugin.Base.{
  ◌≡◌, Bool, Option, none, some, arith, if◌then◌else◌, Bool-cases, Option-cases, inl, inr,
}
use airway_im_plugin.Text.{Text, text_eq}
use airway_im_plugin.Sync.{Stored}
use airway_im_plugin.Adapter.{StorageAdapter, IsBestEffort, or_same}

-- The platform's localStorage: whether it is there and may be accessed, and its methods; a method that throws
-- gives `none`.
pub record LocalStorage : Type 1 where
  pub State : Type 0
  pub accessible : State → Bool
  pub get_item : State → Text → Option Stored
  pub set_item : State → Text → Stored → Option State
  pub remove_item : State → Text → Option State

-- Its documented behaviour: what is set can be read, another key is left alone, and a method that throws has
-- stored nothing, which is in the type.
pub record IsLocalStorage (P : LocalStorage) : Type 0 where
  pub set_accessible :
      (w w' : P.State) (k : Text) (v : Stored)
      → P.set_item w k v ≡ some w'
      → P.accessible w' ≡ P.accessible w
  pub set_get :
      (w w' : P.State) (k j : Text) (v : Stored)
      → P.set_item w k v ≡ some w'
      → P.get_item w' j ≡ (if text_eq k j then some v else P.get_item w j)
  pub remove_accessible :
      (w w' : P.State) (k : Text) → P.remove_item w k ≡ some w' → P.accessible w' ≡ P.accessible w
  pub remove_get :
      (w w' : P.State) (k j : Text)
      → P.remove_item w k ≡ some w'
      → P.get_item w' j ≡ (if text_eq k j then none else P.get_item w j)

-- The adapter's `storage`.
unfoldable pub browser_storage : LocalStorage → StorageAdapter
unfolding or_same
browser_storage P = record {
  State = P.State;
  get = λ w k. if P.accessible w then P.get_item w k else none;
  set = λ w k v. if P.accessible w then or_same w (P.set_item w k v) else w;
  remove = λ w k. if P.accessible w then or_same w (P.remove_item w k) else w;
}

module _ (P : LocalStorage) (h : IsLocalStorage P) where
  pub browser_storage-IsBestEffort : IsBestEffort (browser_storage P)
  unfolding browser_storage
  browser_storage-IsBestEffort = record {
    get-set = λ w k v ne. elim (Bool-cases (P.accessible w)) [
      | inl p ↦ elim (Option-cases (P.set_item w k v)) [
        | inl e ↦ inl (ground (arith, p, e))
        | inr (w', e) ↦
            inr (λ j. ground (arith, p, e, h.set_accessible w w' k v e, h.set_get w w' k j v e))
      ]
      | inr p ↦ inl (ground (arith, p))
    ];
    get-remove = λ w k. elim (Bool-cases (P.accessible w)) [
      | inl p ↦ elim (Option-cases (P.remove_item w k)) [
        | inl e ↦ inl (ground (arith, p, e))
        | inr (w', e) ↦
            inr (λ j. ground (arith, p, e, h.remove_accessible w w' k e, h.remove_get w w' k j e))
      ]
      | inr p ↦ inl (ground (arith, p))
    ];
  }
