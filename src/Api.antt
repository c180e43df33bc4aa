-- ===== src/Api.antt =====
-- The custom resources (api/v1alpha1) and the parts of Kubernetes objects that the code reads.
-- Times are nanoseconds since the epoch. Revisions, generations and replica counts, which the
-- schema keeps at 0 or more, are natural numbers. A nil pointer is `none`; a nil map or slice
-- reads as an empty one.
pub mod Meta
pub mod Common
pub mod Instance
pub mod Upgrade
pub mod Declarations
pub mod Site
