-- ===== src/Ui/Blocks.antt =====
-- app/ui/blocks.py: the Block Kit builders. An actions block of the source holds one button.
-- `isoformat` is `datetime.isoformat` and `str` the text of an id.
pub mod Buttons
use hound_bot.Base.{String, ◌<>◌, List, [], ◌∷◌, ◌++◌}
use hound_bot.Time.{DateTime}
use hound_bot.Models.{Task, Uuid}

pub data Block : Type 0 where
  section : (mrkdwn : String) → Block
  actions : (button_text action_id value : String) → Block

-- `{"type": "home", "blocks": blocks}`
pub record HomeView : Type 0 where
  pub blocks : List Block

unfoldable pub build_meeting_action_blocks : String → String → String → List Block
build_meeting_action_blocks meeting_id action_id button_text =
    section ("Meeting ID: `" <> meeting_id <> "`") ∷ actions button_text action_id meeting_id ∷ []

module _ (isoformat : DateTime → String) (str : Uuid → String) where
  abbrev pub build_task_block : Task → List Block
  build_task_block task =
      section ("*" <> task.title <> "* — due " <> isoformat task.due_at_utc)
      ∷ actions "Mark done" "task_done" (str task.id)
      ∷ []

  abbrev pub extend_all : List Task → List Block
  extend_all [] = []
  extend_all (task ∷ tasks) = build_task_block task ++ extend_all tasks

  unfoldable pub build_task_list_blocks : List Task → List Block
  build_task_list_blocks tasks = extend_all tasks

  unfoldable pub build_app_home_view : List Task → HomeView
  build_app_home_view [] = record { blocks = section "No open tasks assigned to you." ∷ [] }
  build_app_home_view (task ∷ tasks) = record { blocks = extend_all (task ∷ tasks) }
