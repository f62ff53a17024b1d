-- ===== src/Engine/Step/Admission.antt =====
-- Admission: a permit is admitted at most once, and only behind two durable records.
use ark_forge.Prelude.{
  ◌≤◌, false, some, [], ◌∷◌, ◌++◌, ◌≡◌, refl, sym, ap, ◌∙◌, subst, Result, ok, err, map_err, arith,
}
use ark_forge.Core.Digest.Sha256.{Digest}
use ark_forge.Authority.{
  StepPermit, ControllerPairingSecret, DispatchIntent, VerifiedStepPermit, verify_permit,
}
use ark_forge.Authority.Verify.{Endorsed, Describes, verify_permit_sound}
use ark_forge.Engine.Kind.{JournalRecordKind, step_permit_accepted, step_intent_recorded}
use ark_forge.Engine.Recovery.{
  PermitDisposition, unseen, accepted_intent_not_durable, intent_durable, consuming_outcome_unknown,
  consumed, disposition, from_records, permit_id_key, fact_value, named_receipt,
}
use ark_forge.Engine.Recovery.Reopened.{Follows, Follows-rank}
use ark_forge.Engine.Recovery.Ledger.{join, evidence, disposition-snoc, rank}
use ark_forge.Engine.Durable.{FileOps, DurableJournal}
use ark_forge.Engine.Step.{
  AdmittedStep, StepContext, StepError, from_permit, context_facts, step_append, admit_unseen,
  admit_by, admit_step, verification,
}
use ark_forge.Engine.Step.Facts.{
  and_then-ok, IsWritten, step_append-IsWritten, context_facts-permit,
}

module _ (fs : FileOps) (dj : DurableJournal fs) (p : StepPermit) (s : ControllerPairingSecret)
    (i : DispatchIntent) (after : DurableJournal fs) (a : AdmittedStep) where
  -- The two appends of an admission.
  pub record IsAdmission : Type 0 where
    pub verified : verify_permit p s i false ≡ ok a.permit
    pub middle : DurableJournal fs
    pub digest : Digest
    pub first :
        step_append fs dj step_permit_accepted i.now_epoch_ms
          (from_permit a.permit)
          (context_facts (from_permit a.permit))
        ≡ (middle, ok digest)
    pub second :
        step_append fs middle step_intent_recorded i.now_epoch_ms
          (from_permit a.permit)
          (context_facts (from_permit a.permit))
        ≡ (after, ok a.intent_digest)

  IsAdmission_of :
      (dj0 middle last : DurableJournal fs) (v : VerifiedStepPermit) (g1 g2 : Digest)
      → ◌≡◌ {A = DurableJournal fs × Result StepError VerifiedStepPermit}
          (dj, map_err verification (verify_permit p s i false))
          (dj0, ok v)
      → step_append fs dj0 step_permit_accepted i.now_epoch_ms
          (from_permit v)
          (context_facts (from_permit v))
        ≡ (middle, ok g1)
      → step_append fs middle step_intent_recorded i.now_epoch_ms
          (from_permit v)
          (context_facts (from_permit v))
        ≡ (last, ok g2)
      → ◌≡◌ {A = DurableJournal fs × Result StepError AdmittedStep}
          (last, ok (record { permit = v; intent_digest = g2 }))
          (after, ok a)
      → IsAdmission
  IsAdmission_of dj0 middle last v g1 g2 e e1 e2 done =
      let same : dj0 ≡ dj = ground arith in
      let permit : v ≡ a.permit = ground arith in
      let intent : g2 ≡ a.intent_digest = ground arith in
      let end : last ≡ after = ground arith in
      record { verified = ground arith; middle = middle; digest = g1; first = cc; second = cc }

  admit_unseen-IsAdmission : admit_unseen fs dj p s i ≡ (after, ok a) → IsAdmission
  unfolding admit_unseen
  admit_unseen-IsAdmission h =
      let (dj0, v, e, h1) =
        and_then-ok (dj, map_err verification (verify_permit p s i false)) _ h in
      let (middle, g1, e1, h2) =
        and_then-ok
          (step_append fs dj0 step_permit_accepted i.now_epoch_ms (from_permit v)
            (context_facts (from_permit v)))
          _ h1 in
      let (last, g2, e2, h3) =
        and_then-ok
          (step_append fs middle step_intent_recorded i.now_epoch_ms (from_permit v)
            (context_facts (from_permit v)))
          _ h2 in
      IsAdmission_of dj0 middle last v g1 g2 e e1 e2 h3

  admit_by-IsAdmission :
      (d : PermitDisposition) → admit_by fs d dj p s i ≡ (after, ok a) → (d ≡ unseen) × IsAdmission
  unfolding admit_by
  admit_by-IsAdmission unseen h = (refl, admit_unseen-IsAdmission h)
  admit_by-IsAdmission accepted_intent_not_durable h = cc
  admit_by-IsAdmission intent_durable h = cc
  admit_by-IsAdmission consuming_outcome_unknown h = cc
  admit_by-IsAdmission (consumed g) h = cc

  pub admit_step-IsAdmission :
      admit_step fs dj p s i ≡ (after, ok a)
      → (disposition (from_records dj.journal.records) p.permit_id ≡ unseen) × IsAdmission
  unfolding admit_step
  admit_step-IsAdmission h = admit_by-IsAdmission _ h

module _ (fs : FileOps) where
  -- A record that carries the facts of the context moves the context's permit.
  IsWritten-disposition :
      (dj after : DurableJournal fs) (kind : JournalRecordKind) (c : StepContext) (digest : Digest)
      → IsWritten fs dj kind (context_facts c) digest after
      → disposition (from_records after.journal.records) c.permit_id
        ≡ join
            (disposition (from_records dj.journal.records) c.permit_id)
            (evidence kind (named_receipt (context_facts c)))
  IsWritten-disposition dj after kind c digest w =
      let r = w.written in
      let named : fact_value r.facts permit_id_key ≡ some c.permit_id =
        rw w.facts_kept (context_facts-permit c) in
      let moved = disposition-snoc dj.journal.records r c.permit_id named in
      let by_facts =
        subst
          (λ x.
            disposition (from_records (dj.journal.records ++ (r ∷ []))) c.permit_id
            ≡ join (disposition (from_records dj.journal.records) c.permit_id)
                (evidence r.kind (named_receipt x)))
          w.facts_kept moved in
      rw (w.grown, sym w.kind_kept) by_facts

  -- A step is admitted only if nothing in the journal mentions its permit, the permit is endorsed by
  -- the paired authority, and it describes the dispatch. Behind the admission the permit has a
  -- durable intent.
  pub admit_step-intent_durable :
      (dj : DurableJournal fs) (p : StepPermit) (s : ControllerPairingSecret) (i : DispatchIntent)
      (after : DurableJournal fs) (a : AdmittedStep)
      → admit_step fs dj p s i ≡ (after, ok a)
      → (disposition (from_records dj.journal.records) p.permit_id ≡ unseen)
        × (a.permit.permit ≡ p)
        × Endorsed p s
        × Describes p i
        × (disposition (from_records after.journal.records) p.permit_id ≡ intent_durable)
  unfolding join evidence from_permit
  admit_step-intent_durable dj p s i after a h =
      let (fresh, adm) = admit_step-IsAdmission fs dj p s i after a h in
      let (same, unused, endorsed, described) =
        verify_permit_sound p s i false a.permit adm.verified in
      let c = from_permit a.permit in
      let w1 =
        step_append-IsWritten fs dj _ i.now_epoch_ms c (context_facts c) adm.middle adm.digest
          adm.first in
      let w2 =
        step_append-IsWritten fs adm.middle _ i.now_epoch_ms c (context_facts c) after
          a.intent_digest adm.second in
      let d1 = IsWritten-disposition dj adm.middle step_permit_accepted c adm.digest w1 in
      let d2 = IsWritten-disposition adm.middle after step_intent_recorded c a.intent_digest w2 in
      let name : c.permit_id ≡ p.permit_id = ap (λ x. x.permit_id) same in
      let start =
        subst (λ x. disposition (from_records dj.journal.records) x ≡ unseen) (sym name) fresh in
      let end : disposition (from_records after.journal.records) c.permit_id ≡ intent_durable =
        d2
        ∙ ap (λ x. join x intent_durable)
            (d1 ∙ ap (λ x. join x accepted_intent_not_durable) start) in
      (
        fresh,
        same,
        endorsed,
        described,
        subst (λ x. disposition (from_records after.journal.records) x ≡ intent_durable) name end,
      )

  admit_by_refused :
      (d : PermitDisposition) (dj : DurableJournal fs) (p : StepPermit)
      (s : ControllerPairingSecret) (i : DispatchIntent)
      → 1 ≤ rank d
      → (e : StepError) × (admit_by fs d dj p s i ≡ (dj, err e))
  unfolding admit_by rank
  admit_by_refused unseen dj p s i h = ground (arith, h)
  admit_by_refused accepted_intent_not_durable dj p s i h = (_, refl)
  admit_by_refused intent_durable dj p s i h = (_, refl)
  admit_by_refused consuming_outcome_unknown dj p s i h = (_, refl)
  admit_by_refused (consumed g) dj p s i h = (_, refl)

  -- Once a permit was admitted, every later admission under the same permit id is refused and leaves
  -- the journal and its file as they are: with any permit of that id, any secret, any dispatch, on
  -- any handle whose records follow those behind the admission. Appends follow, and so do reopened
  -- journals, in any order.
  pub admit_step_once :
      (dj : DurableJournal fs) (p : StepPermit) (s : ControllerPairingSecret) (i : DispatchIntent)
      (after : DurableJournal fs) (a : AdmittedStep) (later : DurableJournal fs) (p' : StepPermit)
      (s' : ControllerPairingSecret) (i' : DispatchIntent)
      → admit_step fs dj p s i ≡ (after, ok a)
      → Follows after.journal.records later.journal.records
      → p'.permit_id ≡ p.permit_id
      → (e : StepError) × (admit_step fs later p' s' i' ≡ (later, err e))
  unfolding admit_step rank
  admit_step_once dj p s i after a later p' s' i' h follows same_id =
      let (fresh, permit, endorsed, described, intent) =
        admit_step-intent_durable dj p s i after a h in
      let kept = Follows-rank after.journal.records later.journal.records p.permit_id follows in
      let at : 2 ≤ rank (disposition (from_records later.journal.records) p.permit_id) =
        subst (λ d. rank d ≤ rank (disposition (from_records later.journal.records) p.permit_id))
          intent kept in
      admit_by_refused (disposition (from_records later.journal.records) p'.permit_id) later p' s'
        i' (rw same_id (omega (arith, at)))
