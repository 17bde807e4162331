-- ===== src/Gather/Candidates.antt =====
-- A candidate place as the gather step passes it on: CandidatePlace and Source of
-- syncinerary/domain/models.py, with the fields that the merge and the deck read. A dictionary is the
-- function of its entries, keys and other values are numbers, and 0 stands for a falsy value. The fields
-- of a source that nothing compares on their own are one number, and of a score only the order matters.
use syncinerary.Prelude.{ℕ, String, List, Option, none, some, Bool, true, false, ◌&&◌, ◌==◌}
use syncinerary.Transit.Request.{Maths, Float}

pub data SourceType : Type 0 where
  discovery buzz personal : SourceType

pub record Source : Type 0 where
  pub type : SourceType
  pub score : Option ℕ
  pub detail : ℕ

abbrev pub same_source_type : SourceType → SourceType → Bool
same_source_type discovery discovery = true
same_source_type buzz buzz = true
same_source_type personal personal = true
same_source_type _ _ = false

abbrev pub same_score : Option ℕ → Option ℕ → Bool
same_score none none = true
same_score (some a) (some b) = a == b
same_score _ _ = false

-- `==` of two sources.
abbrev pub same_source : Source → Source → Bool
same_source a b =
    same_source_type a.type b.type && (same_score a.score b.score && (a.detail == b.detail))

abbrev pub Dictionary : Type 0
Dictionary = ℕ → Option ℕ

pub record Enrichment : Type 0 where
  pub social_platforms : List ℕ
  pub social_post_urls : List ℕ
  pub social_posts : List ℕ
  pub discovery_queries : List ℕ
  pub others : Dictionary

pub record CandidatePlace (m : Maths) : Type 0 where
  pub id : ℕ
  pub name_canonical : String
  pub lat : Float m
  pub lng : Float m
  pub address : Option String
  pub area : Option String
  pub hours_by_weekday : List ℕ
  pub sources : List Source
  pub enrichment : Enrichment
  pub selection_lane : Option String
  pub trending_signals : Dictionary
