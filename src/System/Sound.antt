-- ===== src/System/Sound.antt =====
-- What holds of the platform in every reachable state: the archives that the programs tell one another
-- about are those of the table, and what is served has passed the analysis.
use mathlib.Core.List.{Memᴰ}
use mathlib.Core.Path.{subst}
use oblak.Prelude.{
  if_both, ltb, length, All, ◌≡◌, refl, sym, ◌∙◌, Bool, true, false, some, List, [], ◌∷◌, ◌++◌,
}
use oblak.Text.{Bytes}
use oblak.Sql.{Uuid, select_one}
use oblak.Function
use oblak.Function.{Function, Functions, row, is_status}
use oblak.Analyzer.Listener.{Delivery, FunctionMessage, BuildMessage}
use oblak.Analyzer.Listener.Gate.{Cleared}
use oblak.Server.Bus.{offer}
use oblak.Server.Quarantine.{UploadEvent}
use oblak.Server.Upload.{}
use oblak.Vm.Service.{ExecuteMessage}
use oblak.System.{Platform, empty, with_status}
use oblak.System.Tables.{is_served, Keeps, IsHarmless, status-IsHarmless}

module _ {ℓ κ} {A : Type ℓ} (P : A → Type κ) where
  abbrev pub Each : List A → Type (ℓ ⊔ κ)
  Each xs = (x : A) → Memᴰ x xs → P x

  pub Each-nil : Each []
  Each-nil x m = elim m [ ]

  pub Each-cons : (y : A) (xs : List A) → P y → Each xs → Each (y ∷ xs)
  Each-cons y xs h k x (Memᴰ.head e) = subst P (sym e) h
  Each-cons y xs h k x (Memᴰ.tail m) = k x m

  pub Each-append : (xs ys : List A) → Each xs → Each ys → Each (xs ++ ys)
  Each-append [] ys h k = k
  Each-append (y ∷ xs) ys h k =
      Each-cons y (xs ++ ys) (h y (Memᴰ.head refl)) (Each-append xs ys (λ x m. h x (Memᴰ.tail m)) k)

  pub Each-All : (xs : List A) → All P xs → Each xs
  Each-All [] h = Each-nil
  Each-All (y ∷ xs) h = Each-cons y xs h.0 (Each-All xs h.1)

  pub Each-offer : (y : A) (ch : List A) → P y → Each ch → Each (offer y ch)
  unfolding offer
  Each-offer y ch h k =
      if_both Each (ltb (length ch) 100) (Each-append ch (y ∷ []) k (Each-cons y [] h Each-nil)) k

-- The function with that identifier has the archive of that name.
abbrev pub Names : Functions → Uuid → Bytes → Type 0
Names t id path = (f : Function.Function) × (row id t ≡ some f) × (f.archive_path ≡ path)

abbrev pub IsNamed : Functions → UploadEvent → Type 0
IsNamed t e = Names t e.function_id e.path

abbrev pub IsNamedMessage : Functions → FunctionMessage → Type 0
IsNamedMessage t m = Names t m.function_id m.path

-- A build of a function with its archive, which has passed the analysis.
abbrev pub IsCleared : Functions → List Delivery → BuildMessage → Type 0
IsCleared t ds b =
    Names t b.function_id b.code_object_name × Cleared ds b.function_id b.code_object_name

-- The archive that a machine is asked to run has passed the analysis.
abbrev pub IsAnalysed : List Delivery → ExecuteMessage → Type 0
IsAnalysed ds m = (id : Uuid) × Cleared ds id m.code_object_name

abbrev pub AreServedCleared : Functions → List Delivery → Type 0
AreServedCleared t ds =
    (id : Uuid) (g : Function.Function)
    → row id t ≡ some g
    → is_served g ≡ true
    → Cleared ds id g.archive_path

pub record IsSound (s : Platform) : Type 0 where
  pub uploads : Each (IsNamed s.functions) s.uploads
  pub events : Each (IsNamed s.functions) s.events
  pub messages : Each (IsNamedMessage s.functions) s.messages
  pub builds : Each (IsCleared s.functions s.analysed) s.builds
  pub claimed : Each (IsCleared s.functions s.analysed) s.claimed
  pub served : AreServedCleared s.functions s.analysed
  pub executions : Each (IsAnalysed s.analysed) s.executions

pub empty-IsSound : IsSound empty
unfolding select_one
empty-IsSound = record {
  uploads = Each-nil _;
  events = Each-nil _;
  messages = Each-nil _;
  builds = Each-nil _;
  claimed = Each-nil _;
  served = λ id g h s. cc h;
  executions = Each-nil _;
}

pub Names-Keeps :
    (t t' : Functions) (id : Uuid) (path : Bytes) → Keeps t t' → Names t id path → Names t' id path
Names-Keeps t t' id path k (f, at, same) = let (g, at', same') = k id f at in (g, at', same' ∙ same)

-- Another table that keeps the archives, and serves nothing that has not passed.
pub moved :
    (s : Platform) (t : Functions)
    → Keeps s.functions t
    → AreServedCleared t s.analysed
    → IsSound s
    → IsSound (record s { functions = t })
moved s t k served h =
    let keep = λ (id : Uuid) (path : Bytes). Names-Keeps s.functions t id path k in
    record {
      uploads = λ e m. keep e.function_id e.path (h.uploads e m);
      events = λ e m. keep e.function_id e.path (h.events e m);
      messages = λ x m. keep x.function_id x.path (h.messages x m);
      builds = λ b m. (keep b.function_id b.code_object_name (h.builds b m).0, (h.builds b m).1);
      claimed = λ b m. (keep b.function_id b.code_object_name (h.claimed b m).0, (h.claimed b m).1);
      served = served;
      executions = h.executions;
    }

pub moved_harmless :
    (s : Platform) (t : Functions)
    → IsHarmless s.functions t
    → IsSound s
    → IsSound (record s { functions = t })
moved_harmless s t (k, quiet) h =
    moved s t k
      (λ id g at served.
        let (f, before, same, also) = quiet id g at served in
        subst (λ p. Cleared s.analysed id p) same (h.served id f before also))
      h

pub with_status-IsSound :
    (s : Platform) (up : Bool) (id : Uuid) (to : Function.Status)
    → is_status to Function.ready ≡ false
    → IsSound s
    → IsSound (with_status up id to s)
with_status-IsSound s up id to unready h =
    moved_harmless s (Function.update_function_status up id to s.functions).0
      (status-IsHarmless id to s.functions unready up) h
