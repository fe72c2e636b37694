-- ===== src/Accounts/AuthSettings/Laws.antt =====
-- Theorems on admin_set_auth_settings (backend/routes_auth.py).
use certheim.Validation.{TextField, no_text, other_type, text}
use certheim.Base.{
  Bool, Option, Text, arith, if-either, if-given, inl, inr, lit, nat_eq, option_eq, refl, some,
  strip, subst, text_eq, true, ◌==◌, ◌∙◌, ◌∷◌, ◌≡◌, ◌⊎◌,
}
use certheim.Store.{World, error, ok, status_eq}
use certheim.Signing.{Deploy}
use certheim.Settings.{get_setting, get_setting-set_setting, set_setting}
use certheim.Accounts.AuthSettings.{
  AuthChanges, Part, admin_set_auth_settings, and_then, given_mtls, has_cac, other_parts, put_mode,
  put_mtls, run_parts, set_mode, set_mtls, store_mtls,
}
use certheim.Accounts.AuthSettings.Keeps.{
  given-either, mode_key, mtls_key, other_parts-Keep, put_mode-mtls, put_mtls-mode, run_parts-first,
  set_setting-Keeps,
}

-- The mode of authentication afterwards: as it was, local, or that of certificates where the
-- installation has the capability and the request confirms the change.
abbrev pub IsModeChange : Deploy → Bool → Option Text → Option Text → Type 0
IsModeChange d confirm old new =
    (new ≡ old)
    ⊎ (new ≡ some (lit "local"))
    ⊎ ((new ≡ some (lit "mtls")) × (has_cac d ≡ true) × (confirm ≡ true))

-- The mode of the client certificates afterwards: as it was, off, or another one where the
-- installation has the capability.
abbrev pub IsMtlsChange : Deploy → Option Text → Option Text → Type 0
IsMtlsChange d old new = (new ≡ old) ⊎ (new ≡ some (lit "off")) ⊎ (has_cac d ≡ true)

get_setting-stored :
    (key value : Text) (w : World)
    → (key == key) ≡ true
    → get_setting key (set_setting key value w) ≡ some value
get_setting-stored key value w same = rw (get_setting-set_setting key value key w, same) refl

set_mode-IsModeChange :
    (d : Deploy) (confirm : Bool) (m : TextField) (w : World)
    → IsModeChange d confirm
        (get_setting mode_key w)
        (get_setting mode_key (set_mode d confirm m w).0)
unfolding text_eq
set_mode-IsModeChange d confirm no_text w = inl refl
set_mode-IsModeChange d confirm other_type w = inl refl
set_mode-IsModeChange d confirm (text mode) w =
    let read = get_setting-stored mode_key mode w refl in ground (arith, read)

put_mode-IsModeChange :
    (d : Deploy) (c : AuthChanges) (w : World)
    → IsModeChange d c.confirm_mtls
        (get_setting mode_key w)
        (get_setting mode_key (put_mode d c w).0)
unfolding put_mode
put_mode-IsModeChange d c w =
    given-either
      (λ v. IsModeChange d c.confirm_mtls (get_setting mode_key w) (get_setting mode_key v))
      c.auth_mode (set_mode d c.confirm_mtls) w (inl refl)
      (λ m. set_mode-IsModeChange d c.confirm_mtls m w)

store_mtls-mtls :
    (mode path : Text) (w : World)
    → (get_setting mtls_key (store_mtls mode path w).0 ≡ get_setting mtls_key w)
      ⊎ (get_setting mtls_key (store_mtls mode path w).0 ≡ some mode)
unfolding store_mtls text_eq
store_mtls-mtls mode path w =
    let P : Part → Type 0 = λ p.
      (get_setting mtls_key p.0 ≡ get_setting mtls_key w)
      ⊎ (get_setting mtls_key p.0 ≡ some mode) in
    if-either P _ _ _ (inl refl) (
      inr (
        set_setting-Keeps (lit "mtls_ca_bundle_path") path mtls_key (set_setting mtls_key mode w)
          refl
        ∙ get_setting-stored mtls_key mode w refl))

set_mtls-IsMtlsChange :
    (d : Deploy) (mode path : Text) (w : World)
    → IsMtlsChange d (get_setting mtls_key w) (get_setting mtls_key (set_mtls d mode path w).0)
unfolding set_mtls
set_mtls-IsMtlsChange d mode path w =
    let P : Part → Type 0 =
      λ p. IsMtlsChange d (get_setting mtls_key w) (get_setting mtls_key p.0) in
    let off : P (store_mtls (lit "off") path w) = elim (store_mtls-mtls (lit "off") path w) [
      | inl same ↦ inl same
      | inr now ↦ inr (inl now)
    ] in
    if-either P _ _ _ (inl refl) (
      if-given P (has_cac d) _ _ (λ cac. inr (inr cac))
        (λ no_cac. if-either P _ _ _ (inl refl) off))

put_mtls-IsMtlsChange :
    (d : Deploy) (c : AuthChanges) (w : World)
    → IsMtlsChange d (get_setting mtls_key w) (get_setting mtls_key (put_mtls d c w).0)
unfolding put_mtls
put_mtls-IsMtlsChange d c w =
    given-either (λ v. IsMtlsChange d (get_setting mtls_key w) (get_setting mtls_key v)) c.mtls_mode
      (λ m. set_mtls d (given_mtls m) (strip c.mtls_ca_bundle_path)) w (inl refl)
      (λ m. set_mtls-IsMtlsChange d (given_mtls m) (strip c.mtls_ca_bundle_path) w)

-- What holds after a part and after the next one holds after both.
and_then-either :
    (P : World → Type 0) (p : Part) (next : World → Part)
    → P p.0
    → P (next p.0).0
    → P (and_then p next).0
and_then-either P (w, ok x) next before after = after
and_then-either P (w, error code message) next before after = before

put_mtls-others :
    (d : Deploy) (c : AuthChanges) (w : World)
    → IsMtlsChange d
        (get_setting mtls_key w)
        (get_setting mtls_key (run_parts (put_mtls d c ∷ other_parts c) w).0)
unfolding text_eq
put_mtls-others d c w =
    rw
      (run_parts-first mtls_key (put_mtls d c) (other_parts c) w
        (other_parts-Keep mtls_key c refl refl refl refl refl refl))
      (put_mtls-IsMtlsChange d c w)

-- A change of the settings leaves the mode of authentication as it was, sets it to local, or sets it
-- to certificates, and that only with the capability for them and the confirmation of the request;
-- it leaves the mode of the client certificates as it was, sets it to off, or the installation has
-- the capability. A refused change may have stored its first parts and obeys the same.
pub auth_settings-IsGated :
    (d : Deploy) (c : AuthChanges) (w : World)
    → IsModeChange d c.confirm_mtls
        (get_setting (lit "auth_mode") w)
        (get_setting (lit "auth_mode") (admin_set_auth_settings d c w).0)
      × IsMtlsChange d
          (get_setting (lit "mtls_mode") w)
          (get_setting (lit "mtls_mode") (admin_set_auth_settings d c w).0)
unfolding admin_set_auth_settings run_parts text_eq
auth_settings-IsGated d c w =
    let w1 = (put_mode d c w).0 in
    let kept = put_mode-mtls d c w in
    (
      rw
          (run_parts-first mode_key (put_mode d c) (put_mtls d c ∷ other_parts c) w
            (put_mtls-mode d c, other_parts-Keep mode_key c refl refl refl refl refl refl))
          (put_mode-IsModeChange d c w),
      and_then-either (λ v. IsMtlsChange d (get_setting mtls_key w) (get_setting mtls_key v))
          (put_mode d c w) (run_parts (put_mtls d c ∷ other_parts c)) (inl kept)
          (subst
            (λ old.
              IsMtlsChange d old
                (get_setting mtls_key (run_parts (put_mtls d c ∷ other_parts c) w1).0))
            kept (put_mtls-others d c w1)),
    )
