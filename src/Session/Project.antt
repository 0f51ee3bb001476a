-- ===== src/Session/Project.antt =====
-- Projection of a snapshot under a privacy policy (ProjectSnapshot of internal/sessiondata/model.go).
use lisstech_drain_ctl.Prelude.{
  Bool, true, false, ◌≡◌, refl, ap, arith, Option, none, some, List, [], ◌∷◌, map,
}
use lisstech_drain_ctl.Session.{
  Text, SessionProcess, SessionRecord, SessionSnapshot, Visibility, visibility_full,
  visibility_masked, visibility_hidden, other_visibility, PrivacyPolicy,
}

-- "***"
abbrev pub mask : Text
mask = 42 ∷ 42 ∷ 42 ∷ []

-- projectOptional
unfoldable pub project_optional : Option Text → Visibility → Option Text
project_optional none v = none
project_optional (some t) visibility_hidden = none
project_optional (some t) visibility_masked = some mask
project_optional (some t) visibility_full = some t
project_optional (some t) (other_visibility o) = some t

abbrev pub is_given : Option Text → Bool
is_given none = false
is_given (some t) = true

-- Two values that a viewer without sight of them cannot tell apart: hidden ones never, masked ones only
-- by their presence.
abbrev pub AlikeText : Visibility → Option Text → Option Text → Type 0
AlikeText visibility_hidden a b = Unit
AlikeText visibility_masked a b = is_given a ≡ is_given b
AlikeText visibility_full a b = a ≡ b
AlikeText (other_visibility o) a b = a ≡ b

project_optional-alike :
    (v : Visibility) (a b : Option Text)
    → AlikeText v a b
    → project_optional a v ≡ project_optional b v
unfolding project_optional
project_optional-alike visibility_hidden none none h = refl
project_optional-alike visibility_hidden none (some b) h = refl
project_optional-alike visibility_hidden (some a) none h = refl
project_optional-alike visibility_hidden (some a) (some b) h = refl
project_optional-alike visibility_masked none none h = refl
project_optional-alike visibility_masked (some a) (some b) h = refl
project_optional-alike visibility_masked none (some b) h = absurd (ground arith)
project_optional-alike visibility_masked (some a) none h = absurd (ground arith)
project_optional-alike visibility_full a b h = ap (λ o. project_optional o visibility_full) h
project_optional-alike (other_visibility o) a b h =
    ap (λ t. project_optional t (other_visibility o)) h

module _ {F : Type 0} where
  abbrev pub mask_name : SessionProcess F → SessionProcess F
  mask_name p = record p { image_name = mask }

  unfoldable pub project_processes : List (SessionProcess F) → Visibility → List (SessionProcess F)
  project_processes ps visibility_hidden = []
  project_processes ps visibility_masked = map mask_name ps
  project_processes ps visibility_full = ps
  project_processes ps (other_visibility o) = ps

  -- ProjectSession
  unfoldable pub project_session : PrivacyPolicy → SessionRecord F → SessionRecord F
  unfolding project_optional project_processes
  project_session policy s = record s {
    user = project_optional s.user policy.identity;
    domain = project_optional s.domain policy.identity;
    station = project_optional s.station policy.client;
    client_name = project_optional s.client_name policy.client;
    client_address = project_optional s.client_address policy.client;
    processes = project_processes s.processes policy.process;
  }

  -- ProjectSnapshot
  unfoldable pub project_snapshot : PrivacyPolicy → SessionSnapshot F → SessionSnapshot F
  unfolding project_session
  project_snapshot policy s = record s { sessions = map (project_session policy) s.sessions }

  -- Two lists of processes that differ only in the names of their images.
  abbrev pub AlikeButName : List (SessionProcess F) → List (SessionProcess F) → Type 0
  AlikeButName [] [] = Unit
  AlikeButName (p ∷ ps) (q ∷ qs) = (record p { image_name = q.image_name } ≡ q) × AlikeButName ps qs
  AlikeButName [] (q ∷ qs) = ⊥
  AlikeButName (p ∷ ps) [] = ⊥

  abbrev pub AlikeProcesses :
      Visibility → List (SessionProcess F) → List (SessionProcess F) → Type 0
  AlikeProcesses visibility_hidden a b = Unit
  AlikeProcesses visibility_masked a b = AlikeButName a b
  AlikeProcesses visibility_full a b = a ≡ b
  AlikeProcesses (other_visibility o) a b = a ≡ b

  masked-alike :
      (a b : List (SessionProcess F)) → AlikeButName a b → map mask_name a ≡ map mask_name b
  masked-alike [] [] h = refl
  masked-alike [] (q ∷ qs) h = absurd h
  masked-alike (p ∷ ps) [] h = absurd h
  masked-alike (p ∷ ps) (q ∷ qs) h =
      let same : mask_name p ≡ mask_name q = ap mask_name h.0 in rw (same, masked-alike ps qs h.1)

  project_processes-alike :
      (v : Visibility) (a b : List (SessionProcess F))
      → AlikeProcesses v a b
      → project_processes a v ≡ project_processes b v
  unfolding project_processes
  project_processes-alike visibility_hidden a b h = refl
  project_processes-alike visibility_masked a b h = masked-alike a b h
  project_processes-alike visibility_full a b h = h
  project_processes-alike (other_visibility o) a b h = h

  -- Two sessions that differ only in what the policy does not show.
  pub record AlikeSession (policy : PrivacyPolicy) (a b : SessionRecord F) : Type 0 where
    pub shown :
        record a {
          user = b.user;
          domain = b.domain;
          station = b.station;
          client_name = b.client_name;
          client_address = b.client_address;
          processes = b.processes;
        }
        ≡ b
    pub user : AlikeText policy.identity a.user b.user
    pub domain : AlikeText policy.identity a.domain b.domain
    pub station : AlikeText policy.client a.station b.station
    pub client_name : AlikeText policy.client a.client_name b.client_name
    pub client_address : AlikeText policy.client a.client_address b.client_address
    pub processes : AlikeProcesses policy.process a.processes b.processes

  abbrev pub AlikeSessions :
      PrivacyPolicy → List (SessionRecord F) → List (SessionRecord F) → Type 0
  AlikeSessions policy [] [] = Unit
  AlikeSessions policy (x ∷ xs) (y ∷ ys) = AlikeSession policy x y × AlikeSessions policy xs ys
  AlikeSessions policy [] (y ∷ ys) = ⊥
  AlikeSessions policy (x ∷ xs) [] = ⊥

  project_session-alike :
      (policy : PrivacyPolicy) (a b : SessionRecord F)
      → AlikeSession policy a b
      → project_session policy a ≡ project_session policy b
  unfolding project_session
  project_session-alike policy a b h =
      rw
        (
          project_optional-alike policy.identity a.user b.user h.user,
          project_optional-alike policy.identity a.domain b.domain h.domain,
          project_optional-alike policy.client a.station b.station h.station,
          project_optional-alike policy.client a.client_name b.client_name h.client_name,
          project_optional-alike policy.client a.client_address b.client_address h.client_address,
          project_processes-alike policy.process a.processes b.processes h.processes,
        )
        (ap (project_session policy) h.shown)

  project_sessions-alike :
      (policy : PrivacyPolicy) (xs ys : List (SessionRecord F))
      → AlikeSessions policy xs ys
      → map (project_session policy) xs ≡ map (project_session policy) ys
  project_sessions-alike policy [] [] h = refl
  project_sessions-alike policy (x ∷ xs) (y ∷ ys) h =
      rw (project_session-alike policy x y h.0, project_sessions-alike policy xs ys h.1)
  project_sessions-alike policy [] (y ∷ ys) h = absurd h
  project_sessions-alike policy (x ∷ xs) [] h = absurd h

  -- Two snapshots that differ only in what the policy does not show are projected to the same snapshot: a
  -- hidden name or process list may be any, of a masked name only its presence counts, and of masked
  -- processes all but the names of their images.
  pub project_snapshot-alike :
      (policy : PrivacyPolicy) (a b : SessionSnapshot F)
      → record a { sessions = b.sessions } ≡ b
      → AlikeSessions policy a.sessions b.sessions
      → project_snapshot policy a ≡ project_snapshot policy b
  unfolding project_snapshot
  project_snapshot-alike policy a b shown h =
      rw (project_sessions-alike policy a.sessions b.sessions h)
        (ap (project_snapshot policy) shown)
