-- ===== src/Select/Evidence.antt =====
-- What SelectBackend records of the backends that it rejects
-- (schedune-control-plane/internal/domain/runtime_select.go).
use mathlib.Core.List.{map-append, append_assoc, append-nil}
use schedune.Base.{
  ◌≡◌, ◌≢◌, ◌⊎◌, inl, inr, ◌∙◌, ap, sym, refl, String, Option, none, some, Option-cases, List, [],
  ◌∷◌, ◌++◌, map, All, eq_iff, arith,
}
use schedune.Schema.Spec.{LaunchSpec, BackendRejectionEvidence}
use schedune.Node.{NodeRecord, NodeCapabilityRecord}
use schedune.Select.Refusals.{Refusal, cloud_hypervisor_refusal, kvm_qemu_refusal}
use schedune.Select.{
  cap_evidence, Rejections, no_rejections, reject, Round, chosen, refused, skipped, backend_round,
  candidates, select_from, select_backend,
}
use schedune.Select.Choice.{of_virtual_machine, of_candidates}

abbrev pub backends_of : List BackendRejectionEvidence → List String
backends_of = map (λ ev. ev.backend)

evidence-backend :
    (c : Option NodeCapabilityRecord) (ev : BackendRejectionEvidence)
    → (cap_evidence c ev).backend ≡ ev.backend
evidence-backend none ev = refl
evidence-backend (some cap) ev = refl

reject-backends :
    (b : String) (r : Refusal) (st : Rejections)
    → backends_of (reject b r st).evidence ≡ backends_of st.evidence ++ b ∷ []
unfolding reject
reject-backends b r st = rw (map-append, evidence-backend) refl

-- Both backends of a virtual machine's candidates have checks of their own.
abbrev AreKnown : List String → Type 0
AreKnown = All (λ b. (b ≡ "cloud_hypervisor") ⊎ (b ≡ "kvm_qemu"))

candidates-AreKnown :
    (spec : LaunchSpec) (bs : List String) → candidates spec ≡ some bs → AreKnown bs
unfolding candidates
candidates-AreKnown spec bs h = ground (
  arith,
  eq_iff spec.runtime_backend_preference "cloud_hypervisor",
  eq_iff spec.runtime_backend_preference "kvm_qemu",
)

-- The list `pre` was rejected, and what follows it begins with the chosen backend, or is empty where
-- none was chosen.
abbrev pub SplitsAt : List String → List String → String → Type 0
SplitsAt pre bs b = (b ≡ "") × (bs ≡ pre) ⊎ ((post : List String) × (bs ≡ pre ++ b ∷ post))

SplitsAt-cons :
    (c : String) (pre bs : List String) (b : String)
    → SplitsAt pre bs b
    → SplitsAt (c ∷ pre) (c ∷ bs) b
SplitsAt-cons c pre bs b (inl (e, all)) = inl (e, ap (λ l. c ∷ l) all)
SplitsAt-cons c pre bs b (inr (post, all)) = inr (post, ap (λ l. c ∷ l) all)

known_round :
    (spec : LaunchSpec) (node : NodeRecord) (b : String)
    → (b ≡ "cloud_hypervisor") ⊎ (b ≡ "kvm_qemu")
    → backend_round spec node b ≢ skipped
unfolding backend_round
known_round spec node b (inl e) = elim (Option-cases (cloud_hypervisor_refusal spec node)) [
  | inl pass ↦ rw (e, pass) (λ h. cc)
  | inr (r, fails) ↦ rw (e, fails) (λ h. cc)
]
known_round spec node b (inr e) = elim (Option-cases (kvm_qemu_refusal spec node)) [
  | inl pass ↦ rw (e, pass) (λ h. cc)
  | inr (r, fails) ↦ rw (e, fails) (λ h. cc)
]

-- What the loop adds to the evidence.
abbrev Adds : List BackendRejectionEvidence → List String → String × Rejections → Type 0
Adds before bs (b, st) =
    (pre : List String) × (backends_of st.evidence ≡ backends_of before ++ pre) × SplitsAt pre bs b

Adds-cons :
    (spec : LaunchSpec) (node : NodeRecord) (b : String) (bs : List String) (st : Rejections)
    → ((st' : Rejections) → Adds st'.evidence bs (select_from spec node bs st'))
    → (r : Round) → r ≢ skipped
    → backend_round spec node b ≡ r
    → Adds st.evidence (b ∷ bs) (select_from spec node (b ∷ bs) st)
unfolding select_from
Adds-cons spec node b bs st ih chosen known e =
    rw (e, select_from) ([], sym (append-nil _), inr (bs, refl))
Adds-cons spec node b bs st ih skipped known e = absurd (known refl)
Adds-cons spec node b bs st ih (refused r) known e =
    let (pre, more, split) = ih (reject b r st) in
    rw (e, select_from)
      (
        b ∷ pre,
        more ∙ ap (λ l. l ++ pre) (reject-backends b r st) ∙ append_assoc _ (b ∷ []) pre,
        SplitsAt-cons b pre bs _ split,
      )

select_from-Adds :
    (spec : LaunchSpec) (node : NodeRecord) (bs : List String) (st : Rejections)
    → AreKnown bs
    → Adds st.evidence bs (select_from spec node bs st)
unfolding select_from
select_from-Adds spec node [] st h = ([], sym (append-nil _), inl (refl, refl))
select_from-Adds spec node (b ∷ bs) st (h, hs) =
    Adds-cons spec node b bs st (λ st'. select_from-Adds spec node bs st' hs)
      (backend_round spec node b) (known_round spec node b h) refl

-- For a virtual machine the evidence names, in order and once each, the candidates that stand before
-- the chosen backend, or all candidates where none is chosen.
pub select_backend-evidence :
    (spec : LaunchSpec) (node : NodeRecord) (bs : List String)
    → spec.runtime_class ≡ "VirtualMachine"
    → candidates spec ≡ some bs
    → SplitsAt (backends_of (select_backend spec node).1.evidence) bs (select_backend spec node).0
select_backend-evidence spec node bs hc hb =
    let (pre, added, split) =
      select_from-Adds spec node bs no_rejections (candidates-AreKnown spec bs hb) in
    rw (of_virtual_machine spec node hc, of_candidates spec node bs hb, added) split
