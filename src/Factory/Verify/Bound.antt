-- ===== src/Factory/Verify/Bound.antt =====
-- What the evidence of src/intent_packages/factory/verify.py is bound to: a dispatch and an armed row that
-- were read.
use intent_packages.Prelude.{◌≡◌, sym, Option, none, some}
use intent_packages.Value.{Value, Entries}
use intent_packages.Outcome.{ok}
use intent_packages.Factory.Session.{Session, Backend, done, resume}
use intent_packages.Factory.Api.Quiet.{bind-done, bind-lift, pair-done}
use intent_packages.Factory.Reads.{in_flight_snapshot, latest_dispatched_payload}
use intent_packages.Factory.Reads.Answers.{
  RowRead, in_flight_snapshot-RowRead, DispatchRead, latest_dispatched_payload-DispatchRead,
}
use intent_packages.Factory.Verify.Binding.{
  Dispatched, Armed, dispatched_in, armed_in, named_check_payload,
}
use intent_packages.Factory.Verify.Writes.{IsArmed, armed_in-IsArmed}
use intent_packages.Factory.Verify.{Claim, refuse, bound, bind_to_row, derive_payload}

module _ (B : Backend) where
  abbrev pub Bound : Value → Claim → Entries → Type 0
  Bound unit_id c p =
      (payload snapshot : Value) × (d : Dispatched) × (a : Armed) × DispatchRead B unit_id payload
      × (dispatched_in payload ≡ ok (some d))
      × RowRead B unit_id snapshot
      × IsArmed snapshot a
      × (p ≡ named_check_payload B d a c.ac_id c.check_name c.expected_conclusion)

  bound-Bound :
      (unit_id payload snapshot : Value) (d : Dispatched) (c : Claim) (o : Option Armed)
      (s s' : Session) (p : Entries)
      → DispatchRead B unit_id payload
      → dispatched_in payload ≡ ok (some d)
      → RowRead B unit_id snapshot
      → armed_in snapshot ≡ ok o
      → bound B d c o s ≡ (done (some p), s')
      → Bound unit_id c p
  unfolding bound refuse resume
  bound-Bound unit_id payload snapshot d c none s s' p g e r f h = absurd (cc h)
  bound-Bound unit_id payload snapshot d c (some a) s s' p g e r f h =
      let (q, _) = pair-done h in
      (payload, snapshot, d, a, g, e, r, armed_in-IsArmed snapshot a f, sym (cc q))

  row-Bound :
      (payload unit_id : Value) (c : Claim) (o : Option Dispatched) (s s' : Session) (p : Entries)
      → DispatchRead B unit_id payload
      → dispatched_in payload ≡ ok o
      → bind_to_row B unit_id c o s ≡ (done (some p), s')
      → Bound unit_id c p
  unfolding bind_to_row refuse resume
  row-Bound payload unit_id c none s s' p g e h = absurd (cc h)
  row-Bound payload unit_id c (some d) s s' p g e h =
      let (snapshot, s1, m, h1) = bind-done (in_flight_snapshot B unit_id s) _ h in
      let (o, f, h2) = bind-lift (armed_in snapshot) s1 _ h1 in
      bound-Bound unit_id payload snapshot d c o s1 s' p g e
        (in_flight_snapshot-RowRead B unit_id snapshot s s1 m) f h2

  pub derive-Bound :
      (unit_id : Value) (c : Claim) (s s' : Session) (p : Entries)
      → derive_payload B unit_id c s ≡ (done (some p), s')
      → Bound unit_id c p
  unfolding derive_payload
  derive-Bound unit_id c s s' p h =
      let (payload, s1, m, h1) = bind-done (latest_dispatched_payload B unit_id s) _ h in
      let (o, e, h2) = bind-lift (dispatched_in payload) s1 _ h1 in
      row-Bound payload unit_id c o s1 s' p
        (latest_dispatched_payload-DispatchRead B unit_id payload s s1 m) e h2
