-- ===== src/Vm/Queue/Handling.antt =====
-- Which messages of the two queues are acted on.
use oblak.Prelude.{
  if_false, if_true, Bool-cases, Option-cases, length, All, ℕ, ◌≤◌, ◌≡◌, refl, ap, ◌∙◌, ◌≢◌, ◌↔◌,
  inl, inr, true, false, not, Option, none, some, List, [], ◌∷◌, arith,
}
use oblak.Text.{Bytes, bytes_eq_iff, contains_byte, split, Lacks}
use oblak.FilePath.{slash, dotdot}
use oblak.Vm.Service.{ExecuteMessage, World, ServiceCalls, execute}
use oblak.Vm.Queue.{
  max_payload_bytes, max_object_name, decode_payload, has_parent, validate_object_name,
  execute_decoded, handle_execute,
}

-- A name of an object that cannot leave its bucket or a directory.
pub record IsObjectName (name : Bytes) : Type 0 where
  pub nonempty : name ≢ []
  pub short : length name ≤ max_object_name
  pub no_null : Lacks 0 name
  pub inside : All (λ segment. segment ≢ dotdot) (split slash name)

contains_byte-Lacks : (b : ℕ) (s : Bytes) → (contains_byte b s ≡ false) ↔ Lacks b s
unfolding contains_byte
contains_byte-Lacks b [] = (λ _. tt, λ _. refl)
contains_byte-Lacks b (c ∷ s) = ground (arith, contains_byte-Lacks b s)

has_parent-All : (ss : List Bytes) → (has_parent ss ≡ false) ↔ All (λ segment. segment ≢ dotdot) ss
unfolding has_parent
has_parent-All [] = (λ _. tt, λ _. refl)
has_parent-All (s ∷ ss) = ground (arith, bytes_eq_iff s dotdot, has_parent-All ss)

-- `validateObjectName` accepts exactly the names that are not empty, have at most 1024 bytes, hold no
-- null byte, and have no segment `..` between their slashes.
pub validate_object_name_iff :
    (name : Bytes) → (validate_object_name name ≡ true) ↔ IsObjectName name
unfolding validate_object_name
validate_object_name_iff [] = (λ h. cc, λ n. absurd (n.nonempty refl))
validate_object_name_iff (c ∷ name) =
    let full = c ∷ name in
    (
      λ h. record {
        nonempty = λ e. cc e;
        short = ground arith;
        no_null = (contains_byte-Lacks 0 full).0 (ground arith);
        inside = (has_parent-All (split slash full)).0 (ground arith);
      },
      λ n.
          let short = n.short in
          let no_null = (contains_byte-Lacks 0 full).1 n.no_null in
          let inside = (has_parent-All (split slash full)).1 n.inside in ground arith,
    )

-- The payload is at most 64 KiB, decodes to `m`, and names its objects as it should.
pub record IsAccepted (decode : Bytes → Option ExecuteMessage) (payload : Bytes)
    (m : ExecuteMessage) : Type 0 where
  pub small : length payload ≤ max_payload_bytes
  pub decodes : decode payload ≡ some m
  pub code : IsObjectName m.code_object_name
  pub dependencies : IsObjectName m.dependencies_object_name

decode_payload-some :
    (decode : Bytes → Option ExecuteMessage) (payload : Bytes) (m : ExecuteMessage)
    → (decode_payload decode payload ≡ some m)
      ↔ ((length payload ≤ max_payload_bytes) × (decode payload ≡ some m))
unfolding decode_payload
decode_payload-some decode payload m = ground arith

-- A payload that is accepted as the message `m` is handed to the service; where no message is
-- accepted, nothing happens and no error is returned, so the payload is not delivered again.
pub handle_execute_lem :
    (decode : Bytes → Option ExecuteMessage) (payload : Bytes) (c : ServiceCalls) (w : World)
    → ((m : ExecuteMessage)
        → IsAccepted decode payload m
        → handle_execute decode payload c w ≡ execute c m w)
      × (((m : ExecuteMessage) → ¬ IsAccepted decode payload m)
          → handle_execute decode payload c w ≡ (w, none))
unfolding handle_execute
handle_execute_lem decode payload c w =
    let run = λ (o : Option ExecuteMessage). execute_decoded o c w in
    (
      λ m a.
          let code = (validate_object_name_iff m.code_object_name).1 a.code in
          let deps = (validate_object_name_iff m.dependencies_object_name).1 a.dependencies in
          ap run ((decode_payload-some decode payload m).1 (a.small, a.decodes))
          ∙ if_false _ _ (ap not code)
          ∙ if_false _ _ (ap not deps),
      λ none_accepted. elim (Option-cases (decode_payload decode payload)) [
        | inl e ↦ ap run e
        | inr (m, e) ↦
            let (small, decodes) = (decode_payload-some decode payload m).0 e in
            ap run e ∙ elim (Bool-cases (validate_object_name m.code_object_name)) [
              | inr bad ↦ if_true _ _ (ap not bad)
              | inl code ↦ elim (Bool-cases (validate_object_name m.dependencies_object_name)) [
                | inr bad ↦ if_false _ _ (ap not code) ∙ if_true _ _ (ap not bad)
                | inl deps ↦ absurd (
                    none_accepted m (record {
                      small = small;
                      decodes = decodes;
                      code = (validate_object_name_iff m.code_object_name).0 code;
                      dependencies = (validate_object_name_iff m.dependencies_object_name).0 deps;
                    }))
              ]
            ]
      ],
    )
