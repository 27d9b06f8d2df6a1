-- ===== src/Image.antt =====
-- Image transforms (image/): the parameters of a transform and the limiter of concurrent ones.
pub mod Params
