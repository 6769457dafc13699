-- ===== src/Ocsf/Shape.antt =====
-- What each OCSF record of ulpf/models.py keeps of its event, and where it has an actor.
use ocsf_forge.Prelude.{
  ℕ, ◌≡◌, refl, ◌∙◌, inl, inr, true, false, Option, none, some, List, [], ◌∷◌, arith, ◌==◌,
  Bool-cases,
}
use ocsf_forge.Text.{Text, codes, text_eq, text_eq_iff, is_in}
use ocsf_forge.Json.{Value, Fields, get, put, remove}
use ocsf_forge.Json.Laws.{get-put, get-remove}
use ocsf_forge.Models.{NormalizedEvent}
use ocsf_forge.Normalizer.Fields.{Library}
use ocsf_forge.Ocsf.Context.{
  has, with_user, with_service, with_response, is_int, retain_context, metadata_of, project_class,
}
use ocsf_forge.Ocsf.Record.{with_endpoint, with_actor, with_class, set_default, base_record, shaped}
use ocsf_forge.Ocsf.Moved.{retain_context-IsMoved}

-- The entries that depend on the class or on fields that an event may lack.
abbrev pub optional_keys : List Text
optional_keys =
    codes "src_endpoint"
    ∷ codes "dst_endpoint"
    ∷ codes "actor"
    ∷ codes "finding_info"
    ∷ codes "is_alert"
    ∷ codes "api"
    ∷ codes "user"
    ∷ codes "service"
    ∷ codes "http_response"
    ∷ codes "unmapped"
    ∷ []

is_in-apart :
    (j k : Text) (ks : List Text) → is_in j ks ≡ false → is_in k ks ≡ true → text_eq j k ≡ false
is_in-apart j k [] h m = cc
is_in-apart j k (i ∷ ks) h m =
    ground (arith, text_eq_iff j k, text_eq_iff j i, text_eq_iff k i, is_in-apart j k ks)

module _ (j : Text) where
  pub get-put_other :
      (r : Fields) (k : Text) (v : Value) → text_eq j k ≡ false → get (put r k v) j ≡ get r j
  get-put_other r k v h = get-put r k v j ∙ rw h refl

  get-remove_other : (r : Fields) (k : Text) → text_eq j k ≡ false → get (remove r k) j ≡ get r j
  get-remove_other r k h = get-remove r k j ∙ rw h refl

  pub get-with_endpoint :
      (key ip : Text) (port : Option ℕ) (r : Fields)
      → text_eq j key ≡ false
      → get (with_endpoint key ip port r) j ≡ get r j
  get-with_endpoint key [] none r h = refl
  get-with_endpoint key [] (some n) r h = get-put_other r key _ h
  get-with_endpoint key (c ∷ ip) none r h = get-put_other r key _ h
  get-with_endpoint key (c ∷ ip) (some n) r h = get-put_other r key _ h

  pub get-with_actor :
      (user : Text) (r : Fields)
      → text_eq j (codes "actor") ≡ false
      → get (with_actor user r) j ≡ get r j
  get-with_actor [] r h = refl
  get-with_actor (c ∷ t) r h = get-put_other r _ _ h

  pub get-with_user :
      (user : Text) (r : Fields)
      → text_eq j (codes "actor") ≡ false
      → text_eq j (codes "user") ≡ false
      → get (with_user user r) j ≡ get r j
  get-with_user [] r h k = refl
  get-with_user (c ∷ t) r h k = get-remove_other _ (codes "actor") h ∙ get-put_other r _ _ k

  pub get-with_service :
      (service : Option Value) (r : Fields)
      → text_eq j (codes "service") ≡ false
      → get (with_service service r) j ≡ get r j
  get-with_service none r h = refl
  get-with_service (some (Value.str [])) r h = refl
  get-with_service (some (Value.str (c ∷ t))) r h = get-put_other r _ _ h
  get-with_service (some Value.null) r h = refl
  get-with_service (some (Value.boolean b)) r h = refl
  get-with_service (some (Value.int n)) r h = refl
  get-with_service (some (Value.negative n)) r h = refl
  get-with_service (some (Value.float t)) r h = refl
  get-with_service (some (Value.arr vs)) r h = refl
  get-with_service (some (Value.obj d)) r h = refl

  pub get-with_response :
      (d r : Fields)
      → text_eq j (codes "http_response") ≡ false
      → get (with_response d r) j ≡ get r j
  get-with_response d r h = elim (Bool-cases (is_int (get d (codes "http_status")))) [
    | inl yes_ ↦ rw yes_ (get-put_other r _ _ h)
    | inr no_ ↦ rw no_ refl
  ]

  get-set_default :
      (r : Fields) (key : Text) (v : Value)
      → text_eq j key ≡ false
      → get (set_default r key v) j ≡ get r j
  get-set_default r key v h = elim (Bool-cases (has r key)) [
    | inl found ↦ rw found refl
    | inr missing ↦ rw missing (get-put_other r key v h)
  ]

  module _ (outside : is_in j optional_keys ≡ false) where
    -- `j` is none of the keys that the projections touch.
    apart : (k : Text) → is_in k optional_keys ≡ true → text_eq j k ≡ false
    apart k = is_in-apart j k optional_keys outside

    get-retained :
        (names : List Text) (r : Fields)
        → is_in (codes "unmapped") names ≡ false
        → is_in j names ≡ false
        → get (retain_context r names) j ≡ get r j
    get-retained names r free out =
        (retain_context-IsMoved names r free).others j (apart (codes "unmapped") refl) ∙ rw out refl

    get-project_class : (e : NormalizedEvent) (r : Fields) → get (project_class e r) j ≡ get r j
    unfolding project_class
    get-project_class e r = elim (Bool-cases (e.class_uid == 2004)) [
      | inl finding ↦ rw finding (
          get-retained (codes "src_endpoint" ∷ codes "dst_endpoint" ∷ codes "actor" ∷ []) r refl (
            rw
              (
                (apart (codes "src_endpoint") refl),
                (apart (codes "dst_endpoint") refl),
                (apart (codes "actor") refl),
              )
              refl))
      | inr no1 ↦ elim (Bool-cases (e.class_uid == 3002)) [
        | inl login ↦
            rw (no1, login)
              (get-with_service _ _ (apart (codes "service") refl)
                ∙ get-with_user e.user r (apart (codes "actor") refl) (apart (codes "user") refl))
        | inr no2 ↦ elim (Bool-cases (e.class_uid == 4002)) [
          | inl http ↦
              rw (no1, no2, http)
                (get-with_response (metadata_of e.metadata) _ (apart (codes "http_response") refl)
                  ∙ get-retained (codes "actor" ∷ []) r refl (rw (apart (codes "actor") refl) refl))
          | inr no3 ↦ rw (no1, no2, no3) refl
        ]
      ]
    ]

    get-with_class :
        (lib : Library) (e : NormalizedEvent) (r : Fields) → get (with_class lib e r) j ≡ get r j
    get-with_class lib e r = elim (Bool-cases (e.class_uid == 2004)) [
      | inl finding ↦ rw finding (
          get-put_other _ _ _ (apart (codes "is_alert") refl)
          ∙ get-put_other r _ _ (apart (codes "finding_info") refl))
      | inr no1 ↦ elim (Bool-cases (e.class_uid == 6003)) [
        | inl call ↦
            rw (no1, call)
              (get-put_other _ _ _ (apart (codes "api") refl)
                ∙ get-set_default r _ _ (apart (codes "actor") refl))
        | inr no2 ↦ rw (no1, no2) refl
      ]
    ]

    pub get-shaped :
        (lib : Library) (milliseconds : Text → Option Value) (e : NormalizedEvent)
        (time logged : Value)
        → get (shaped lib milliseconds e time logged) j ≡ get (base_record e time logged) j
    unfolding shaped
    get-shaped lib milliseconds e time logged =
        get-project_class e _
        ∙ get-with_class lib e _
        ∙ get-with_actor e.user _ (apart (codes "actor") refl)
        ∙ get-with_endpoint (codes "dst_endpoint") e.dst_endpoint_ip e.dst_endpoint_port
            (with_endpoint (codes "src_endpoint") e.src_endpoint_ip e.src_endpoint_port
              (base_record e time logged))
            (apart (codes "dst_endpoint") refl)
        ∙ get-with_endpoint (codes "src_endpoint") e.src_endpoint_ip e.src_endpoint_port
            (base_record e time logged) (apart (codes "src_endpoint") refl)
