-- ===== src/Domain/Records.antt =====
-- References to records (src/temper_ml/domain/records.py).
use temper_ml.Base.{nat_eq, list_eq, Eq, Text, ℕ_discrete}
use temper_ml.Domain.Projections.{ContentIdentity-discrete, identity_eq, ContentIdentity}

pub record RecordReference : Type 0 where
  pub record_type : Text
  pub logical_id : Text
  pub identity : ContentIdentity

unfoldable pub RecordReference-discrete : Discrete RecordReference
unfolding ContentIdentity-discrete ℕ_discrete
RecordReference-discrete = hlevel (ℕ_discrete, ContentIdentity-discrete)

instance abbrev pub reference_eq : Eq RecordReference
reference_eq = record { dec = RecordReference-discrete }
