-- ===== src/My402List/Reads.antt =====
-- What a user of the list of my402list.c needs to follow its elements, passed on.
pub use usc_projects.My402List.Links.{first_or}
pub use usc_projects.My402List.Steps.{step, load_obj-ok}
pub use usc_projects.My402List.Ends.{unless_empty, empty-Holds, first-Holds, live-ne_null}
pub use usc_projects.My402List.Next.{next-Holds}
pub use usc_projects.My402List.Insert.{==-ne}
