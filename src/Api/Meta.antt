-- ===== src/Api/Meta.antt =====
-- The parts of `metav1` that the resources carry, and the references of api/v1alpha1 that several
-- resources share.
use pocketid_operator.Base.{ℕ, String, Option, List}
use pocketid_operator.Base.Dict.{Dict}

-- Seconds of the wall clock.
abbrev pub Time : Type 0
Time = ℕ

pub record OwnerReference : Type 0 where
  pub kind : String
  pub name : String
  pub uid : String

pub record ObjectMeta : Type 0 where
  pub name : String
  pub namespace : String
  pub uid : String
  pub generation : ℕ
  pub deletion_timestamp : Option Time
  pub finalizers : List String
  pub labels : Dict String
  pub annotations : Dict String
  pub owner_references : List OwnerReference

-- `metav1.ObjectMeta{Name: …, Namespace: …}`
abbrev pub named : String → String → ObjectMeta
named name namespace = record {
  name = name;
  namespace = namespace;
  uid = "";
  generation = 0;
  deletion_timestamp = Option.none;
  finalizers = List.[];
  labels = List.[];
  annotations = List.[];
  owner_references = List.[];
}

-- `types.NamespacedName`, `client.ObjectKey`
pub record Key : Type 0 where
  pub name : String
  pub namespace : String

-- `client.ObjectKeyFromObject`
abbrev pub key_of : ObjectMeta → Key
key_of m = record { name = m.name; namespace = m.namespace }

pub data ConditionStatus : Type 0 where
  condition_true condition_false condition_unknown : ConditionStatus

pub record Condition : Type 0 where
  pub type : String
  pub status : ConditionStatus
  pub reason : String
  pub message : String
  pub observed_generation : ℕ
  pub last_transition_time : Time

-- `matchExpressions` is kept as the texts of its requirements.
pub record LabelSelector : Type 0 where
  pub match_labels : Dict String
  pub match_expressions : List String

pub record LocalObjectReference : Type 0 where
  pub name : String

pub record NamespacedObjectReference : Type 0 where
  pub name : String
  pub namespace : String

pub record CrossNamespaceObjectReference : Type 0 where
  pub name : String
  pub namespace : Option String
