-- ===== src/Dispatch/Messages.antt =====
-- The texts of the errors that fail a step: `Display` of `RenderError` (swale/src/template.rs), of
-- `ItemsError` (swale/src/input.rs) and of `IdentityError` (swale/src/task.rs).
use swale.Base.{Text, ◌++◌, codes, show}
use swale.Input.Params.{ItemsError}
use swale.Partition.{max_partition_len}
use swale.Task.{IdentityError, header_partition, header_rerun}
use swale.Template.Render.{RenderError}

unfoldable pub render_message : RenderError → Text
render_message (RenderError.missing_upstream node) =
    codes "no output is recorded for upstream `" ++ (node ++ codes "`")
render_message (RenderError.missing_path node path) =
    codes "path `"
    ++ (path ++ (codes "` is absent from the output of upstream `" ++ (node ++ codes "`")))
render_message (RenderError.missing_env name) =
    codes "environment variable `" ++ (name ++ codes "` is not set")
render_message RenderError.missing_item = codes "the run does not have an item"
render_message (RenderError.missing_item_path path) =
    codes "path `" ++ (path ++ codes "` is absent from the item")

unfoldable pub items_message : ItemsError → Text
unfolding render_message
items_message (ItemsError.render_error e) = codes "`each`: " ++ render_message e
items_message (ItemsError.not_an_array e) = codes "`each` does not render to a JSON array: " ++ e

unfoldable pub identity_message : IdentityError → Text
identity_message (IdentityError.missing_header key) =
    codes "header `" ++ (key ++ codes "` is absent")
identity_message (IdentityError.invalid_partition text) =
    codes "header `"
    ++ (header_partition
        ++ (codes "`: `"
            ++ (text
                ++ (codes "` is not a partition key: `[A-Za-z0-9_]` of one to "
                    ++ (show max_partition_len ++ codes " bytes")))))
identity_message (IdentityError.invalid_rerun text) =
    codes "header `" ++ (header_rerun ++ (codes "` is not a count: `" ++ (text ++ codes "`")))
