-- ===== src/Jira/Sprint.antt =====
-- parse_jira_sprint of pipelines/utils/__init__.py, and transform_raw_sprint_to_clean of
-- pipelines/utils/transformations.py.
use process_metrics_platform.Common.{String, Option}
use process_metrics_platform.Documents.{Result, ok, ◌>>=◌, Json, null, text}
use process_metrics_platform.Documents.Access.{get, or_default, Conversions, str_of}
use process_metrics_platform.Jira.Datetime.{Datetime, parse_jira_datetime}

-- The board is that of the data, or the one that the caller gives.
pub record Sprint : Type 0 where
  pub external_id : String
  pub name : Json
  pub state : Json
  pub start_date : Option Datetime
  pub end_date : Option Datetime
  pub complete_date : Option Datetime
  pub goal : Json
  pub board_id : Json

module _ (strptime : String → String → Option Datetime) (c : Conversions) where
  -- The fields, where `missing` stands for a field that is not there.
  unfoldable pub read_sprint : Json → Json → Result Sprint
  unfolding get parse_jira_datetime str_of
  read_sprint missing raw = do
    id ← get raw "id" missing
    name ← get raw "name" missing
    state ← get raw "state" missing
    start ← get raw "startDate" null
    start_date ← parse_jira_datetime strptime start
    end ← get raw "endDate" null
    end_date ← parse_jira_datetime strptime end
    complete ← get raw "completeDate" null
    complete_date ← parse_jira_datetime strptime complete
    goal ← get raw "goal" null
    board ← get raw "originBoardId" null
    ok record {
      external_id = str_of c id;
      name = name;
      state = state;
      start_date = start_date;
      end_date = end_date;
      complete_date = complete_date;
      goal = goal;
      board_id = board;
    }

  unfoldable pub parse_jira_sprint : Json → Result Sprint
  unfolding read_sprint
  parse_jira_sprint raw = read_sprint null raw

  unfoldable pub transform_raw_sprint_to_clean : Json → Json → Result Sprint
  unfolding read_sprint or_default
  transform_raw_sprint_to_clean board_id raw = read_sprint (text "") raw >>= λ sprint.
      ok (record sprint { board_id = or_default sprint.board_id board_id })
