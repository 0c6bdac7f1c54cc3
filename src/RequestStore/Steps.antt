-- ===== src/RequestStore/Steps.antt =====
-- What a method does with the record that it finds.
use backend_bmo_blabs.Base.{ℕ, ◌≡◌, refl, ◌∙◌, ap, subst, true, false, none, some, ok, arith}
use backend_bmo_blabs.Base.Dict.{lookup, lookup-insert}
use backend_bmo_blabs.RequestStore.Record.{
  VoiceRequestRecord, AudioOutput, PendingStatus, pending, is_terminal, is_processing,
}
use backend_bmo_blabs.RequestStore.Invariant.{Inv}
use backend_bmo_blabs.RequestStore.Calls.{step-Inv}
use backend_bmo_blabs.RequestStore.Devices.{ending_frees_device}
use backend_bmo_blabs.RequestStore.{
  RequestStore, Op, step, set_status, with_record, set_status_of, mark_audio_ready, mark_ready_of,
  ready_record, write, fail, failed_record,
}

-- The record `q` is stored under this id and has not ended.
pub record IsOpen (id : ℕ) (s : RequestStore) (q : VoiceRequestRecord) : Type 0 where
  pub inv : Inv s
  pub at : lookup id s.requests ≡ some q
  pub going : is_terminal q.status ≡ false

module _ (id : ℕ) (s : RequestStore) (q : VoiceRequestRecord) (o : IsOpen id s q) where
  named : q.request_id ≡ id
  named = (o.inv.entry id q o.at).keyed

  pub set_status-IsOpen :
      (status : PendingStatus)
      → let q' = record q { status = pending status } in
        let s' = write id q' s in (set_status id status s ≡ (s', ok q')) × IsOpen id s' q'
  unfolding set_status with_record set_status_of step
  set_status-IsOpen status =
      let q' = record q { status = pending status } in
      let set : set_status id status s ≡ (write id q' s, ok q') =
        rw (o.at, with_record) (rw (o.going, named) refl) in
      (
        set,
        record {
          inv = subst (λ c. Inv c.0) set (step-Inv (Op.sets id status) s o.inv);
          at = ground (arith, lookup-insert id id q' s.requests);
          going = not_ended status;
        },
      )
    where
      not_ended : (status : PendingStatus) → is_terminal (pending status) ≡ false
      not_ended PendingStatus.accepted = refl
      not_ended PendingStatus.transcribing = refl
      not_ended PendingStatus.thinking = refl
      not_ended PendingStatus.generating_voice = refl
      not_ended PendingStatus.audio_ready = refl

  pub mark_audio_ready-found :
      (output : AudioOutput)
      → is_processing q.status ≡ true
      → let s' = write id (ready_record output q) s in
        (mark_audio_ready id output s ≡ (s', ok (ready_record output q)))
        × (lookup id s'.requests ≡ some (ready_record output q))
  unfolding mark_audio_ready with_record mark_ready_of
  mark_audio_ready-found output early = (
    rw (o.at, with_record) (rw (early, named) refl),
    ground (arith, lookup-insert id id (ready_record output q) s.requests),
  )

  pub fail-found :
      (code now : ℕ)
      → (lookup id (fail id code now s).0.requests ≡ some (failed_record code now q))
        × (lookup q.device_id (fail id code now s).0.active_by_device ≡ none)
  fail-found code now =
      let at' = ap (λ i. lookup i s.requests) named ∙ o.at in
      let (_, e, _) = ending_frees_device s q o.inv at' o.going now code in
      let (_, there, _, free, _) = e in
      (
        subst (λ i. lookup i (fail i code now s).0.requests ≡ some (failed_record code now q)) named
            there,
        subst (λ i. lookup q.device_id (fail i code now s).0.active_by_device ≡ none) named free,
      )
